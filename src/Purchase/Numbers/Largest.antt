-- ===== src/Purchase/Numbers/Largest.antt =====
-- The largest of the numbers of a date is the one with the largest index.
use materials_manager.Base.{
  ℕ, ◌≤◌, ◌≡◌, refl, sym, ap, ◌∙◌, inl, inr, Text, text, Option, none, some, true, false, List, [],
  ◌∷◌, ◌++◌, ltb, contains, arith, All, Bool-cases, Option-cases,
}
use materials_manager.Core.Calendar.{date_of_days, format_date, zero_padded, zero_padded-three}
use materials_manager.Model.Purchase.{Date}
use materials_manager.Purchase.Numbers.{text_ltb, larger, max_text, last_segment, plan_prefix}
use materials_manager.Purchase.Numbers.Digits.{three, text_ltb-three, no_dash}

text_ltb-prefix : (p s t : Text) → text_ltb (p ++ s) (p ++ t) ≡ text_ltb s t
unfolding text_ltb
text_ltb-prefix [] s t = refl
text_ltb-prefix (c ∷ p) s t = ground (arith, text_ltb-prefix p s t)

has_dash : (x w : Text) → contains 45 (x ++ 45 ∷ w) ≡ true
has_dash [] w = refl
has_dash (c ∷ x) w = ground (arith, has_dash x w)

no_dash-last : (w : Text) → contains 45 w ≡ false → last_segment (45 ∷ w) ≡ w
unfolding last_segment
no_dash-last w h = rw h refl

last_segment-dash : (x w : Text) → contains 45 w ≡ false → last_segment (x ++ 45 ∷ w) ≡ w
unfolding last_segment
last_segment-dash [] w h = no_dash-last w h
last_segment-dash (c ∷ x) w h = rw (has_dash x w) (last_segment-dash x w h)

append_dash : (x y w : Text) → (x ++ (y ++ 45 ∷ [])) ++ w ≡ (x ++ y) ++ 45 ∷ w
append_dash [] [] w = refl
append_dash [] (c ∷ y) w = ap (◌∷◌ c) (append_dash [] y w)
append_dash (c ∷ x) y w = ap (◌∷◌ c) (append_dash x y w)

-- The number with an index.
abbrev pub plan_number : Date → ℕ → Text
plan_number d k = plan_prefix d ++ zero_padded 3 k

-- A number that the program gives: the prefix of its date, and an index of at most 999.
pub record IsNumber (d : Date) (s : Text) : Type 0 where
  pub index : ℕ
  pub small : index ≤ 999
  pub written : s ≡ plan_number d index

pub last_segment-number : (d : Date) (k : ℕ) → k ≤ 999 → last_segment (plan_number d k) ≡ three k
last_segment-number d k h =
    ap (λ (w : Text). last_segment (plan_prefix d ++ w)) (zero_padded-three k h)
    ∙ ap last_segment (append_dash (text "PLAN-") (format_date (date_of_days d)) (three k))
    ∙ last_segment-dash (text "PLAN-" ++ format_date (date_of_days d)) (three k) (no_dash k h)

pub text_ltb-number :
    (d : Date) (a b : ℕ)
    → a ≤ 999
    → b ≤ 999
    → text_ltb (plan_number d a) (plan_number d b) ≡ ltb a b
text_ltb-number d a b h k =
    text_ltb-prefix (plan_prefix d) (zero_padded 3 a) (zero_padded 3 b)
    ∙ rw (zero_padded-three a h, zero_padded-three b k) (text_ltb-three a b h k)

-- The largest of a list of numbers: it has the largest index.
pub record IsLargest (d : Date) (ss : List Text) (m : Text) : Type 0 where
  pub index : ℕ
  pub small : index ≤ 999
  pub written : m ≡ plan_number d index
  pub above : All (λ s. (k : ℕ) × (k ≤ index) × (s ≡ plan_number d k)) ss

raise_above :
    (d : Date) (m n : ℕ) (ss : List Text)
    → m ≤ n
    → All (λ s. (k : ℕ) × (k ≤ m) × (s ≡ plan_number d k)) ss
    → All (λ s. (k : ℕ) × (k ≤ n) × (s ≡ plan_number d k)) ss
raise_above d m n [] h a = tt
raise_above d m n (s ∷ ss) h a =
    ((a.0.0, omega (arith, h, a.0.1), a.0.2), raise_above d m n ss h a.1)

larger-IsLargest :
    (d : Date) (s : Text) (ss : List Text) (t m : Text)
    → IsNumber d s
    → IsLargest d ss t
    → larger s (some t) ≡ some m
    → IsLargest d (s ∷ ss) m
larger-IsLargest d s ss t m n l e =
    let compare : text_ltb s t ≡ ltb n.index l.index =
      rw (n.written, l.written) (text_ltb-number d n.index l.index n.small l.small) in
    elim (Bool-cases (text_ltb s t)) [
      | inl c ↦
          let same : t ≡ m = ground arith in
          record {
            index = l.index;
            small = l.small;
            written = sym same ∙ l.written;
            above = ((n.index, ground arith, n.written), l.above);
          }
      | inr c ↦
          let same : s ≡ m = ground arith in
          record {
            index = n.index;
            small = n.small;
            written = sym same ∙ n.written;
            above = (
              (n.index, omega arith, n.written),
              raise_above d l.index n.index ss (ground arith) l.above,
            );
          }
    ]

pub larger_some : (s : Text) (o : Option Text) → larger s o ≡ none → ⊥
larger_some s none h = cc
larger_some s (some t) h = elim (Bool-cases (text_ltb s t)) [
  | inl c ↦ absurd (ground arith)
  | inr c ↦ absurd (ground arith)
]

pub max_text-IsLargest :
    (d : Date) (ss : List Text) (m : Text)
    → All (IsNumber d) ss
    → max_text ss ≡ some m
    → IsLargest d ss m
unfolding max_text
max_text-IsLargest d [] m a e = cc
max_text-IsLargest d (s ∷ []) m a e =
    let same : s ≡ m = cc in
    record {
      index = a.0.index;
      small = a.0.small;
      written = sym same ∙ a.0.written;
      above = ((a.0.index, omega arith, a.0.written), tt);
    }
max_text-IsLargest d (s ∷ r ∷ ss) m a e = elim (Option-cases (max_text (r ∷ ss))) [
  | inl f ↦ absurd (larger_some r (max_text ss) f)
  | inr (t, f) ↦
      larger-IsLargest d s (r ∷ ss) t m a.0 (max_text-IsLargest d (r ∷ ss) t a.1 f)
        (sym (ap (larger s) f) ∙ e)
]
