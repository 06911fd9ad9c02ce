-- ===== src/Imports/Codes/Distinct.antt =====
-- What an import of the material code library leaves: which rows, with which codes, and how many.
use materials_manager.Base.{
  ℕ, suc, ◌≡◌, refl, ap, sym, ◌∙◌, subst, Text, text, Option, none, some, Bool, true, false, List,
  [], ◌∷◌, not, ◌&&◌, length, map, keep, is_some, Option-cases, inl, inr,
}
use materials_manager.Core.Tx.{Result, ok, err}
use materials_manager.Core.Tx.Inversion.{bind-inv, or_raise-inv, raise_if-inv, pure-inv}
use materials_manager.Purchase.Plans.{has}
use materials_manager.Imports.{Row, value_of, insert_batches}
use materials_manager.Imports.Batches.{insert_batches-all}
use materials_manager.Imports.Located.{IsLocated, locate-IsLocated}
use materials_manager.Imports.Codes.{
  MaterialCode, ImportSummary, new_code, parse_rows, is_nil, parse_material_codes, summary_of,
  replaced, process_material_codes,
}
use materials_manager.Imports.Codes.Parsed.{AreNew, written_values, parse_rows-inv}
use materials_manager.Imports.Codes.Described.{AreDescribed, written-AreDescribed}

-- No code stands in the list twice, and none is in `seen`.
abbrev pub codes_distinct : List Text → List MaterialCode → Bool
codes_distinct seen [] = true
codes_distinct seen (m ∷ ms) =
    not (has m.material_code seen) && codes_distinct (m.material_code ∷ seen) ms

distinct :
    (seen : List Text) (vs : List (List Text))
    → AreNew seen vs
    → codes_distinct seen (map new_code vs) ≡ true
distinct seen [] h = refl
distinct seen (v ∷ vs) h = let ih = distinct (value_of 0 v ∷ seen) vs h.2 in rw h.1 ih

-- The columns of the code, the name, the specification and the unit.
abbrev pub library_headers : List Text
library_headers = text "编码" ∷ text "名称" ∷ text "型号" ∷ text "记账单位名称" ∷ []

-- The library is what the rows below the headers say, with no code twice, and not empty.
pub record IsImported (rows : List Row) (library : List MaterialCode) : Type 0 where
  pub code : ℕ
  pub name : ℕ
  pub spec : ℕ
  pub unit : ℕ
  pub below : List Row
  pub located : IsLocated library_headers (code ∷ name ∷ spec ∷ unit ∷ []) below rows
  pub described : AreDescribed code name spec unit below library
  pub distinct_codes : codes_distinct [] library ≡ true
  pub some_row : is_nil library ≡ false

located-IsImported :
    (rows : List Row) (columns : List ℕ) (below : List Row) (library : List MaterialCode)
    → IsLocated library_headers columns below rows
    → AreNew [] (written_values columns below)
    → library ≡ map new_code (written_values columns below)
    → is_nil library ≡ false
    → IsImported rows library
located-IsImported rows (a ∷ b ∷ c ∷ d ∷ []) below library located new written full = record {
  code = a;
  name = b;
  spec = c;
  unit = d;
  below = below;
  located = located;
  described =
      subst (AreDescribed a b c d below) (sym written) (written-AreDescribed a b c d [] below new);
  distinct_codes = ap (codes_distinct []) written ∙ distinct [] _ new;
  some_row = full;
}
located-IsImported rows [] below library located new written full = absurd (located.heads)
located-IsImported rows (a ∷ []) below library located new written full = absurd (located.heads.1)
located-IsImported rows (a ∷ b ∷ []) below library located new written full =
    absurd (located.heads.1.1)
located-IsImported rows (a ∷ b ∷ c ∷ []) below library located new written full =
    absurd (located.heads.1.1.1)
located-IsImported rows (a ∷ b ∷ c ∷ d ∷ e ∷ more) below library located new written full =
    absurd (located.heads.1.1.1.1)

parse-IsImported :
    (rows : List Row) (q : List MaterialCode × List Text)
    → parse_material_codes rows [] ≡ ok q
    → IsImported rows q.0
unfolding parse_material_codes
parse-IsImported rows q h =
    let (found, e, h1) = or_raise-inv _ _ _ [] q h in
    let (parsed, s, c, h2) = bind-inv (parse_rows found.0 found.1) _ [] q h1 in
    let (n, h3) = raise_if-inv _ _ _ s q h2 in
    let same = pure-inv _ s q h3 in
    let (w, new) = parse_rows-inv found.0 found.1 [] (parsed, s) c in
    located-IsImported rows found.0 found.1 q.0
      (locate-IsLocated library_headers rows found.0 found.1 e) new (same ∙ w) (ap is_nil same ∙ n)

-- How many rows leave a column out.
abbrev pub left_out : List (Option Text) → ℕ
left_out [] = 0
left_out (none ∷ os) = suc (left_out os)
left_out (some s ∷ os) = left_out os

-- The numbers of a library.
pub record IsCounted (library : List MaterialCode) (summary : ImportSummary) : Type 0 where
  pub imported : summary.imported_count ≡ length library
  pub without_name : summary.blank_name_count ≡ left_out (map (λ m. m.name) library)
  pub without_spec : summary.blank_model_spec_count ≡ left_out (map (λ m. m.model_spec) library)

left_out-keep :
    (f : MaterialCode → Option Text) (ms : List MaterialCode)
    → length (keep (λ m. not (is_some (f m))) ms) ≡ left_out (map f ms)
left_out-keep f [] = refl
left_out-keep f (m ∷ ms) = elim (Option-cases (f m)) [
  | inl e ↦ rw e (ap suc (left_out-keep f ms))
  | inr (s, e) ↦ rw e (left_out-keep f ms)
]

summary_of-IsCounted : (library : List MaterialCode) → IsCounted library (summary_of library)
summary_of-IsCounted library = record {
  imported = refl;
  without_name = left_out-keep (λ m. m.name) library;
  without_spec = left_out-keep (λ m. m.model_spec) library;
}

import-inv :
    (rows : List Row) (r : Result (List MaterialCode × List Text))
    (q : ImportSummary × List MaterialCode)
    → ((p : List MaterialCode × List Text) → r ≡ ok p → IsImported rows p.0)
    → replaced r ≡ ok q
    → IsImported rows q.1 × IsCounted q.1 q.0
import-inv rows (err e) q h k = absurd (cc)
import-inv rows (ok p) q h k =
    let all = insert_batches-all p.0 in
    let e : q ≡ (summary_of p.0, insert_batches (length p.0) 0 p.0 []) = cc in
    let rows_in : q.1 ≡ p.0 = ap (λ (x : ImportSummary × List MaterialCode). x.1) e ∙ all in
    let counts : q.0 ≡ summary_of p.0 = ap (λ (x : ImportSummary × List MaterialCode). x.0) e in
    (
      subst (IsImported rows) (sym rows_in) (h p refl),
      subst (λ (ms : List MaterialCode). IsCounted ms q.0) (sym rows_in)
          (subst (IsCounted p.0) (sym counts) (summary_of-IsCounted p.0)),
    )

-- An import that succeeds has read the file, and leaves the library that the file describes. The headers
-- stand in the first of the first twenty rows that has all four, each in the last column of its text. Below
-- them every row that has a value under a header gives a row of the library, in order, with the
-- values under the headers, a name and a specification only where they are not empty, a code and a unit that
-- are not, and none too long for its column; no code stands twice, and there is at least one. The
-- numbers that it returns are how many rows the library has, and how many of them without a name and without a
-- specification. What was in the library before is gone.
pub process_material_codes-IsImported :
    (file : Result (List Row)) (library : List MaterialCode) (q : ImportSummary × List MaterialCode)
    → process_material_codes file library ≡ ok q
    → (rows : List Row) × (file ≡ ok rows) × IsImported rows q.1 × IsCounted q.1 q.0
unfolding process_material_codes
process_material_codes-IsImported (err e) library q h = absurd (cc)
process_material_codes-IsImported (ok rows) library q h =
    let r = import-inv rows (parse_material_codes rows []) q (parse-IsImported rows) h in
    (rows, refl, r.0, r.1)
