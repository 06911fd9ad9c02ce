-- ===== src/Access/Versions.antt =====
-- The version of an `If-Match` header is the one that was written into it.
use materials_manager.Base.{
  ℕ, ◌≤◌, ◌≡◌, refl, ap, ◌∙◌, pos, Text, some, true, false, [], ◌∷◌, ◌++◌, all, length, truthy,
  strip, strip_start, strip_end, is_space, is_blank, arith,
}
use materials_manager.Purchase.Numbers.{is_digit}
use materials_manager.Imports.{decimal}
use materials_manager.Access.Headers.{
  strip_quotes_start, strip_quotes_end, is_quote, get_if_match_version,
}
use materials_manager.Access.Integers.{int_of, int_of-decimal, all-digits-decimal, decimal-cons}

abbrev pub quoted : Text → Text
quoted s = 34 ∷ (s ++ 34 ∷ [])

truthy-snoc : (s : Text) (c : ℕ) → truthy (s ++ c ∷ []) ≡ true
truthy-snoc [] c = refl
truthy-snoc (d ∷ s) c = refl

strip_end-quote : (s : Text) → strip_end (s ++ 34 ∷ []) ≡ s ++ 34 ∷ []
unfolding strip_end is_space
strip_end-quote [] = refl
strip_end-quote (c ∷ s) =
    let ih = strip_end-quote s in let t = truthy-snoc s 34 in ground (arith, ih, t)

strip-quoted : (s : Text) → strip (quoted s) ≡ quoted s
unfolding strip strip_start is_space
strip-quoted s = ap (λ (r : Text). 34 ∷ r) (strip_end-quote s)

quote-digit : (c : ℕ) → is_digit c ≡ true → is_quote c ≡ false
quote-digit c h = ground arith

strip_quotes_end-digits : (s : Text) → all is_digit s ≡ true → strip_quotes_end (s ++ 34 ∷ []) ≡ s
unfolding strip_quotes_end
strip_quotes_end-digits [] h = refl
strip_quotes_end-digits (c ∷ s) h =
    let e = quote-digit c (ground arith) in
    rw (strip_quotes_end, e) (ap (λ (r : Text). c ∷ r) (strip_quotes_end-digits s (ground arith)))

strip_quotes_start-digits :
    (s : Text) → 1 ≤ length s → all is_digit s ≡ true → strip_quotes_start (quoted s) ≡ s ++ 34 ∷ []
unfolding strip_quotes_start
strip_quotes_start-digits [] n h = absurd (omega arith)
strip_quotes_start-digits (c ∷ s) n h = let e = quote-digit c (ground arith) in ground arith

header-int :
    (header : Text)
    → truthy (strip header) ≡ true
    → get_if_match_version (some header)
      ≡ int_of (strip_quotes_end (strip_quotes_start (strip header)))
unfolding get_if_match_version is_blank
header-int header h = rw h refl

-- A header with a version in double quotes, as an entity tag is written, is read as that version.
pub get_if_match_version-quoted :
    (n : ℕ) → get_if_match_version (some (quoted (decimal n))) ≡ some (pos n)
get_if_match_version-quoted n =
    let s = decimal n in
    let same = strip-quoted s in
    header-int (quoted s) (ap truthy same)
    ∙ ap (λ (t : Text). int_of (strip_quotes_end (strip_quotes_start t))) same
    ∙ ap (λ (t : Text). int_of (strip_quotes_end t))
        (strip_quotes_start-digits s (decimal-cons n) (all-digits-decimal n))
    ∙ ap int_of (strip_quotes_end-digits s (all-digits-decimal n))
    ∙ int_of-decimal n
