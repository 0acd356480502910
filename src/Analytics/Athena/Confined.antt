-- ===== src/Analytics/Athena/Confined.antt =====
-- How the statements of src/adapters/analytics/athena-analytics.ts are held to the tenant.
use cubeforge_api.Prelude.{
  ℕ, Bool, true, false, [], ◌∷◌, List, Text, ◌≡◌, refl, arith, lit, all, append_assoc, All, inl,
  inr, none, some, is_space, nat_eq, Bool-cases,
}
use cubeforge_api.Access.Identifiers.{is_well_formed, is_uuid_character}
use cubeforge_api.Analytics.Athena.{watermark_statement, movements_statement, stock_statement}
use cubeforge_api.Analytics.Athena.Select.{
  Select, Table, Confined, has_no_quote, at_least, at_most, plain, named, total, grouping, ordering,
  held_to,
}
use cubeforge_api.Semantic.Period.{Period, day_shape, matches_all, day_pattern}

no_quote-uuid : (t : Text) → all is_uuid_character t ≡ true → has_no_quote t ≡ true
no_quote-uuid [] h = refl
no_quote-uuid (c ∷ t) h = ground (arith, no_quote-uuid t)

no_quote-well_formed : (t : Text) → is_well_formed t ≡ true → has_no_quote t ≡ true
unfolding is_well_formed
no_quote-well_formed t h = no_quote-uuid t (ground arith)

no_quote-matches :
    (ps : List (ℕ → Bool)) (t : Text)
    → All (λ p. p b'\'' ≡ false) ps
    → matches_all ps t ≡ true
    → has_no_quote t ≡ true
no_quote-matches [] [] r h = refl
no_quote-matches [] (c ∷ t) r h = absurd (ground arith)
no_quote-matches (p ∷ ps) [] r h = absurd (ground arith)
no_quote-matches (p ∷ ps) (c ∷ t) (reject, r) h = elim (Bool-cases (p c)) [
  | inl fits ↦ ground (arith, no_quote-matches ps t r, fits, differs fits, h)
  | inr fails ↦ absurd (ground (arith, fails, h))
]
  where
    differs : p c ≡ true → nat_eq c b'\'' ≡ false
    differs fits = elim (Bool-cases (nat_eq c b'\'')) [
      | inr e ↦ e
      | inl e ↦ let same : c ≡ b'\'' = ground (arith, e) in absurd (cc (same, fits, reject))
    ]

-- A text in the form of a day has no quote in it.
no_quote-day : (t : Text) → day_shape t ≡ true → has_no_quote t ≡ true
no_quote-day t h =
    no_quote-matches day_pattern t
      (refl, (refl, (refl, (refl, (refl, (refl, (refl, (refl, (refl, (refl, tt)))))))))) h

abbrev unaliased : Text → Table
unaliased name = record { name = name; alias = none }

abbrev aliased : Text → Text → Table
aliased name alias = record { name = name; alias = some alias }

abbrev watermark_query : Text → Select
watermark_query tenant = record {
  items = plain (lit "complete_through") ∷ [];
  from_gap = lit " ";
  first = unaliased (lit "watermarks");
  joins = [];
  where_gap = lit " ";
  condition = held_to tenant (unaliased (lit "watermarks"));
  and_gap = lit " ";
  conditions = [];
  endings = [];
}

abbrev movements_query : Text → Period → Select
movements_query tenant period = record {
  items =
      plain (lit "recorded_date")
      ∷ plain (lit "kind")
      ∷ total (lit "quantity") (lit "quantity")
      ∷ [];
  from_gap = lit "\n         ";
  first = unaliased (lit "movements");
  joins = [];
  where_gap = lit "\n        ";
  condition = held_to tenant (unaliased (lit "movements"));
  and_gap = lit "\n          ";
  conditions =
      record { column = lit "recorded_date"; operator = at_least; literal = period.from }
      ∷ record { column = lit "recorded_date"; operator = at_most; literal = period.to }
      ∷ [];
  endings =
      grouping (lit "\n        ") (lit "recorded_date" ∷ lit "kind" ∷ [])
      ∷ ordering (lit "\n        ") (lit "recorded_date" ∷ lit "kind" ∷ [])
      ∷ [];
}

abbrev stock_query : Text → Select
stock_query tenant = record {
  items =
      named (lit "m.sku") (lit "sku")
      ∷ named (lit "p.name") (lit "name")
      ∷ total (lit "m.quantity") (lit "on_hand")
      ∷ [];
  from_gap = lit "\n         ";
  first = aliased (lit "movements") (lit "m");
  joins =
      record {
        gap = lit "\n         ";
        table = aliased (lit "products") (lit "p");
        left = lit "p.code";
        right = lit "m.sku";
      }
      ∷ [];
  where_gap = lit "\n        ";
  condition = held_to tenant (aliased (lit "movements") (lit "m"));
  and_gap = lit "\n          ";
  conditions = held_to tenant (aliased (lit "products") (lit "p")) ∷ [];
  endings =
      grouping (lit "\n        ") (lit "m.sku" ∷ lit "p.name" ∷ [])
      ∷ ordering (lit "\n        ") (lit "m.sku" ∷ [])
      ∷ [];
}

module _ (tenant : Text) (h : is_well_formed tenant ≡ true) where
  pub watermark_statement-Confined : Confined tenant (watermark_statement tenant)
  unfolding watermark_statement is_space
  watermark_statement-Confined = record {
    query = watermark_query tenant;
    written = simp append_assoc;
    closed = record {
      items = (refl, tt);
      gaps = (refl, refl, refl);
      first = (refl, tt);
      joins = tt;
      condition = (refl, no_quote-well_formed tenant h);
      conditions = tt;
      endings = tt;
    };
    first = inl refl;
    joins = tt;
  }

  pub movements_statement-Confined :
      (period : Period)
      → day_shape period.from ≡ true
      → day_shape period.to ≡ true
      → Confined tenant (movements_statement tenant period)
  unfolding movements_statement is_space
  movements_statement-Confined period from_day to_day = record {
    query = movements_query tenant period;
    written = simp append_assoc;
    closed = record {
      items = (refl, (refl, ((refl, refl), tt)));
      gaps = (refl, refl, refl);
      first = (refl, tt);
      joins = tt;
      condition = (refl, no_quote-well_formed tenant h);
      conditions =
          ((refl, no_quote-day period.from from_day), ((refl, no_quote-day period.to to_day), tt));
      endings = ((refl, (refl, (refl, tt))), ((refl, (refl, (refl, tt))), tt));
    };
    first = inl refl;
    joins = tt;
  }

  pub stock_statement-Confined : Confined tenant (stock_statement tenant)
  unfolding stock_statement is_space
  stock_statement-Confined = record {
    query = stock_query tenant;
    written = simp append_assoc;
    closed = record {
      items = ((refl, refl), ((refl, refl), ((refl, refl), tt)));
      gaps = (refl, refl, refl);
      first = (refl, refl);
      joins = ((refl, (refl, refl), refl, refl), tt);
      condition = (refl, no_quote-well_formed tenant h);
      conditions = ((refl, no_quote-well_formed tenant h), tt);
      endings = ((refl, (refl, (refl, tt))), ((refl, (refl, tt)), tt));
    };
    first = inl refl;
    joins = (inr (inl refl), tt);
  }
