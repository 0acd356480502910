-- ===== src/Semantic/Vocabulary/Names.antt =====
-- The names of a question, and what they are read as.
use cubeforge_api.Prelude.{
  [], ◌∷◌, true, some, List, map, Text, ◌≡◌, refl, arith, eq_iff, inl, inr, Bool-cases, includes,
  filter, find, ◌==◌, ◌↔◌, ap, List-cases,
}
use cubeforge_api.Semantic.Vocabulary.{
  is_unknown, read_names, recognise, recognised, MeasureName, GroupingName, measure_text,
  grouping_text, measure_names, grouping_names, measures_from, groupings_from,
}

module _ {T : Type 0} (text : T → Text) where
  find-includes :
      (offered : List T) (s : Text)
      → includes (map text offered) s ≡ true
      → (t : T) × (find (λ u. text u == s) offered ≡ some t) × (text t ≡ s)
  unfolding includes
  find-includes [] s h = absurd (ground arith)
  find-includes (u ∷ us) s h = elim (Bool-cases (text u == s)) [
    | inl e ↦ (u, ground (arith, e), (eq_iff (text u) s).0 e)
    | inr e ↦
        let (t, found, same) = find-includes us s (ground (arith, e, h)) in
        (t, ground (arith, e, found), same)
  ]

  includes-find :
      (offered : List T) (s : Text) (t : T)
      → find (λ u. text u == s) offered ≡ some t
      → includes (map text offered) s ≡ true
  unfolding includes
  includes-find [] s t h = absurd (ground arith)
  includes-find (u ∷ us) s t h = elim (Bool-cases (text u == s)) [
    | inl e ↦ ground (arith, e)
    | inr e ↦ ground (arith, e, includes-find us s t (ground (arith, e, h)))
  ]

  module _ (offered : List T) where
    read_names-text :
        (names : List Text)
        → filter (is_unknown text offered) names ≡ []
        → map text (read_names text offered names) ≡ names
    read_names-text [] h = refl
    read_names-text (n ∷ ns) h = elim (Bool-cases (includes (map text offered) n)) [
      | inl e ↦
          let (t, found, same) = find-includes offered n e in
          let rest = read_names-text ns (ground (arith, e, h)) in
          rw found (ground (arith, same, rest))
      | inr e ↦ absurd (ground (arith, e, h))
    ]

    module _ (own : (t : T) → find (λ u. text u == text t) offered ≡ some t) where
      read_names_own : (ts : List T) → read_names text offered (map text ts) ≡ ts
      read_names_own [] = refl
      read_names_own (t ∷ ts) = rw (own t) (ap (λ us. t ∷ us) (read_names_own ts))

      none_unknown : (ts : List T) → filter (is_unknown text offered) (map text ts) ≡ []
      none_unknown [] = refl
      none_unknown (t ∷ ts) = rw (includes-find offered (text t) t (own t)) (none_unknown ts)

      -- Names are recognised as values on offer exactly if they are the values' texts.
      pub recognise_iff :
          (names : List Text) (ts : List T)
          → (recognise text offered names ≡ recognised ts) ↔ (map text ts ≡ names)
      unfolding recognise
      recognise_iff names ts = (
        λ h. elim (List-cases (filter (is_unknown text offered) names)) [
          | inl e ↦ let same = read_names-text names e in ground (arith, rw e at h, same)
          | inr (u, us, e) ↦ absurd (ground (arith, rw e at h))
        ],
        λ e. rw (← e, none_unknown ts, read_names_own ts) refl,
      )

measure_own :
    (t : MeasureName) → find (λ u. measure_text u == measure_text t) measure_names ≡ some t
unfolding ◌==◌
measure_own MeasureName.net_quantity = refl
measure_own MeasureName.movement_count = refl
measure_own MeasureName.on_hand_quantity = refl

grouping_own :
    (t : GroupingName) → find (λ u. grouping_text u == grouping_text t) grouping_names ≡ some t
unfolding ◌==◌
grouping_own GroupingName.recorded_day = refl
grouping_own GroupingName.occurred_day = refl
grouping_own GroupingName.kind = refl
grouping_own GroupingName.product = refl
grouping_own GroupingName.location = refl

pub measures_from_iff :
    (names : List Text) (ts : List MeasureName)
    → (measures_from names ≡ recognised ts) ↔ (map measure_text ts ≡ names)
measures_from_iff = recognise_iff measure_text measure_names measure_own

pub groupings_from_iff :
    (names : List Text) (ts : List GroupingName)
    → (groupings_from names ≡ recognised ts) ↔ (map grouping_text ts ≡ names)
groupings_from_iff = recognise_iff grouping_text grouping_names grouping_own
