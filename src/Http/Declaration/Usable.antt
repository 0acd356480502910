-- ===== src/Http/Declaration/Usable.antt =====
-- The shapes of a declaration that pass `assertUsable`.
use cubeforge_api.Prelude.{Bool, true, false, List, ◌∷◌, Text, ◌≡◌, ◌↔◌, refl, arith, all}
use cubeforge_api.Http.Declaration.{
  Shape, assert_usable, not_named, assert_roles, ok, RolesShape, all, is_role, listed,
}
use cubeforge_api.Errors.{ok}

-- A shape that says one thing: public, for operators, for any person, or for some roles.
pub data SaysOneThing : Shape → Type 0 where
  says_public : SaysOneThing (record {
    public = true;
    operator = false;
    person = false;
    roles = not_named;
    machines = false;
  })
  says_operator : SaysOneThing (record {
    public = false;
    operator = true;
    person = false;
    roles = not_named;
    machines = false;
  })
  says_person : SaysOneThing (record {
    public = false;
    operator = false;
    person = true;
    roles = not_named;
    machines = false;
  })
  says_roles :
      (r : Text) (rs : List Text) (machines : Bool)
      → all is_role (r ∷ rs) ≡ true
      → SaysOneThing (record {
        public = false;
        operator = false;
        person = false;
        roles = listed (r ∷ rs);
        machines = machines;
      })

usable_sound :
    (public operator person machines : Bool) (roles : RolesShape)
    → assert_usable (record {
      public = public;
      operator = operator;
      person = person;
      roles = roles;
      machines = machines;
    })
      ≡ ok tt
    → SaysOneThing (record {
      public = public;
      operator = operator;
      person = person;
      roles = roles;
      machines = machines;
    })
unfolding assert_usable assert_roles
usable_sound true false false false not_named h = says_public
usable_sound false true false false not_named h = says_operator
usable_sound false false true false not_named h = says_person
usable_sound false false false m (listed (r ∷ rs)) h = says_roles r rs m (ground arith)
usable_sound _ _ _ _ _ h = absurd (ground arith)

usable_complete : (shape : Shape) → SaysOneThing shape → assert_usable shape ≡ ok tt
unfolding assert_usable assert_roles
usable_complete _ says_public = refl
usable_complete _ says_operator = refl
usable_complete _ says_person = refl
usable_complete _ (says_roles r rs m e) = ground (arith, e)

-- A declaration is usable exactly if it says one thing: it makes the route public, or gives it to
-- operators, or to any person, or names some roles, all of them permitted ones; only with roles may
-- it admit machines.
pub assert_usable_iff : (shape : Shape) → (assert_usable shape ≡ ok tt) ↔ SaysOneThing shape
assert_usable_iff shape = (
  usable_sound shape.public shape.operator shape.person shape.machines shape.roles,
  usable_complete shape,
)
