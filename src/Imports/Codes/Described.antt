-- ===== src/Imports/Codes/Described.antt =====
-- The rows of a table, beside what they become.
use materials_manager.Base.{
  ℕ, ◌≤◌, ◌≡◌, inl, inr, refl, Text, Option, none, some, true, false, List, [], ◌∷◌, any, length,
  truthy, Bool-cases, arith, map,
}
use materials_manager.Imports.{Row, text_at, row_values, non_empty}
use materials_manager.Imports.Codes.{MaterialCode, new_code}
use materials_manager.Imports.Codes.Parsed.{IsComplete, AreNew, written_values}

-- An empty text is no value.
abbrev pub IsValue : Option Text → Text → Type 0
IsValue none s = s ≡ []
IsValue (some t) s = (t ≡ s) × (truthy s ≡ true)

module _ (code name spec unit : ℕ) where
  -- The row has no value in the four columns.
  abbrev pub IsEmptyRow : Row → Type 0
  IsEmptyRow r =
      (text_at r code ≡ []) × (text_at r name ≡ []) × (text_at r spec ≡ []) × (text_at r unit ≡ [])

  -- The values of a row that passes.
  pub record IsDescribed (r : Row) (m : MaterialCode) : Type 0 where
    pub of_code : m.material_code ≡ text_at r code
    pub coded : truthy m.material_code ≡ true
    pub short_code : length m.material_code ≤ 64
    pub of_name : IsValue m.name (text_at r name)
    pub short_name : length (text_at r name) ≤ 128
    pub of_spec : IsValue m.model_spec (text_at r spec)
    pub short_spec : length (text_at r spec) ≤ 255
    pub of_unit : m.unit_name ≡ text_at r unit
    pub measured : truthy m.unit_name ≡ true
    pub short_unit : length m.unit_name ≤ 32

  pub data AreDescribed : List Row → List MaterialCode → Type 0 where
    ended : AreDescribed [] []
    passed_over :
        (r : Row) (rs : List Row) (ms : List MaterialCode)
        → IsEmptyRow r
        → AreDescribed rs ms
        → AreDescribed (r ∷ rs) ms
    taken :
        (r : Row) (m : MaterialCode) (rs : List Row) (ms : List MaterialCode)
        → IsDescribed r m
        → AreDescribed rs ms
        → AreDescribed (r ∷ rs) (m ∷ ms)

  abbrev columns : List ℕ
  columns = code ∷ name ∷ spec ∷ unit ∷ []

  not_truthy : (s : Text) → truthy s ≡ false → s ≡ []
  not_truthy [] h = refl
  not_truthy (c ∷ s) h = absurd (cc)

  non_empty-IsValue : (s : Text) → IsValue (non_empty s) s
  non_empty-IsValue [] = refl
  non_empty-IsValue (c ∷ s) = (refl, refl)

  empty_row : (r : Row) → any truthy (row_values columns r) ≡ false → IsEmptyRow r
  empty_row r h = (
    not_truthy _ (ground arith),
    not_truthy _ (ground arith),
    not_truthy _ (ground arith),
    not_truthy _ (ground arith),
  )

  complete-IsDescribed :
      (r : Row)
      → IsComplete (row_values columns r)
      → IsDescribed r (new_code (row_values columns r))
  complete-IsDescribed r h = record {
    of_code = refl;
    coded = h.code;
    short_code = ground (arith, h.code_length);
    of_name = non_empty-IsValue (text_at r name);
    short_name = ground (arith, h.name_length);
    of_spec = non_empty-IsValue (text_at r spec);
    short_spec = ground (arith, h.spec_length);
    of_unit = refl;
    measured = h.unit;
    short_unit = ground (arith, h.unit_length);
  }

  pub written-AreDescribed :
      (seen : List Text) (rs : List Row)
      → AreNew seen (written_values columns rs)
      → AreDescribed rs (map new_code (written_values columns rs))
  written-AreDescribed seen [] h = AreDescribed.ended
  written-AreDescribed seen (r ∷ rs) h = elim (Bool-cases (any truthy (row_values columns r))) [
    | inl e ↦
        let k = rw e at h in
        rw e (
          AreDescribed.taken r (new_code (row_values columns r)) rs _ (complete-IsDescribed r k.0)
            (written-AreDescribed (text_at r code ∷ seen) rs k.2))
    | inr e ↦
        let k = rw e at h in
        rw e (AreDescribed.passed_over r rs _ (empty_row r e) (written-AreDescribed seen rs k))
  ]
