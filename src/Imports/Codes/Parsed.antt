-- ===== src/Imports/Codes/Parsed.antt =====
-- What the rows of a file become when they are read.
use materials_manager.Base.{
  not-false, ℕ, ◌≡◌, ap, ◌∙◌, subst, Text, none, true, false, List, [], ◌∷◌, ltb, length, any, map,
  keep, truthy, Bool-cases, inl, inr,
}
use materials_manager.Core.Errors.{ErrorCode, app_error}
use materials_manager.Core.Tx.{ok, Tx, ◌>>◌, pure}
use materials_manager.Core.Tx.Inversion.{bind-inv, gets-inv, raise_if-inv, modify-last, pure-inv}
use materials_manager.Purchase.Plans.{has}
use materials_manager.Imports.{Row, row_values, value_of}
use materials_manager.Imports.Codes.{MaterialCode, validate_length, new_code, check_row, parse_rows}

-- The values of a row that passes: a code and a unit, and none too long for its column.
pub record IsComplete (values : List Text) : Type 0 where
  pub code : truthy (value_of 0 values) ≡ true
  pub unit : truthy (value_of 3 values) ≡ true
  pub code_length : ltb 64 (length (value_of 0 values)) ≡ false
  pub name_length : ltb 128 (length (value_of 1 values)) ≡ false
  pub spec_length : ltb 255 (length (value_of 2 values)) ≡ false
  pub unit_length : ltb 32 (length (value_of 3 values)) ≡ false

length-inv :
    {S B : Type 0} (value : Text) (maximum : ℕ) (k : Tx S B) (s : S) (q : B × S)
    → (validate_length value maximum >> k) s ≡ ok q
    → (ltb maximum (length value) ≡ false) × (k s ≡ ok q)
unfolding validate_length
length-inv value maximum k s q h =
    raise_if-inv (ltb maximum (length value)) (app_error ErrorCode.import_value_too_long none) k s q
      h

check_row-inv :
    (values seen : List Text) (q : Unit {0} × List Text)
    → check_row values seen ≡ ok q
    → IsComplete values × (has (value_of 0 values) seen ≡ false) × (q.1 ≡ value_of 0 values ∷ seen)
unfolding check_row
check_row-inv values seen q h =
    let (a, h1) = raise_if-inv _ _ _ seen q h in
    let (b, h2) = raise_if-inv _ _ _ seen q h1 in
    let h3 = gets-inv _ _ seen q h2 in
    let (c, h4) = raise_if-inv _ _ _ seen q h3 in
    let (d, h5) = length-inv _ _ _ seen q h4 in
    let (e, h6) = length-inv _ _ _ seen q h5 in
    let (f, h7) = length-inv _ _ _ seen q h6 in
    let (g, h8) = length-inv _ _ _ seen q h7 in
    (
      record {
        code = not-false _ a;
        unit = not-false _ b;
        code_length = d;
        name_length = e;
        spec_length = f;
        unit_length = g;
      },
      c,
      modify-last _ seen q h8,
    )

-- Each code is new among those before it.
abbrev pub AreNew : List Text → List (List Text) → Type 0
AreNew seen [] = Unit
AreNew seen (v ∷ vs) =
    IsComplete v × (has (value_of 0 v) seen ≡ false) × AreNew (value_of 0 v ∷ seen) vs

-- The values of the rows that have one.
abbrev pub written_values : List ℕ → List Row → List (List Text)
written_values columns rows = keep (any truthy) (map (row_values columns) rows)

pub parse_rows-inv :
    (columns : List ℕ) (rows : List Row) (seen : List Text) (q : List MaterialCode × List Text)
    → parse_rows columns rows seen ≡ ok q
    → (q.0 ≡ map new_code (written_values columns rows)) × AreNew seen (written_values columns rows)
unfolding parse_rows pure
parse_rows-inv columns [] seen q h = (cc, tt)
parse_rows-inv columns (r ∷ rs) seen q h = elim (Bool-cases (any truthy (row_values columns r))) [
  | inl e ↦
      let h0 = rw (parse_rows, e) at h in
      let (a, s1, c, h1) = bind-inv (check_row (row_values columns r)) _ seen q h0 in
      let (complete, new, after) = check_row-inv (row_values columns r) seen (a, s1) c in
      let (rest, s2, d, h2) = bind-inv (parse_rows columns rs) _ s1 q h1 in
      let ih = parse_rows-inv columns rs s1 (rest, s2) d in
      rw e (
        pure-inv _ s2 q h2
            ∙ ap (λ (ms : List MaterialCode). new_code (row_values columns r) ∷ ms) ih.0,
        (complete, new, subst (λ (s : List Text). AreNew s (written_values columns rs)) after ih.1),
      )
  | inr e ↦
      let h0 = rw (parse_rows, e) at h in let ih = parse_rows-inv columns rs seen q h0 in rw e ih
]
