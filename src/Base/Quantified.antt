-- ===== src/Base/Quantified.antt =====
-- The quantifier `All` and the tests of the searches, through the operations on lists.
use Prim.Native.Nat.{ℕ, zero, suc}
use mathlib.Core.Path.{◌≡◌, refl, sym, ap, ◌∙◌}
use mathlib.Core.Logic.{inl, inr}
use mathlib.Core.Bool.{Bool, true, ◌||◌}
use mathlib.Core.List.{List, [], ◌∷◌, ◌++◌, map}
use mathlib.Core.Option.{some}
use native.Mathlib.Omega.{arith}
use materials_manager.Base.Tests.{Bool-cases, some-inj}
use materials_manager.Base.Lists.{take, drop, any, keep, find, All}

module _ {A : Type 0} (P : A → Type 0) where
  pub All-take : (n : ℕ) (xs : List A) → All P xs → All P (take n xs)
  All-take zero xs h = tt
  All-take (suc n) [] h = tt
  All-take (suc n) (x ∷ xs) h = (h.0, All-take n xs h.1)

  pub All-drop : (n : ℕ) (xs : List A) → All P xs → All P (drop n xs)
  All-drop zero xs h = h
  All-drop (suc n) [] h = tt
  All-drop (suc n) (x ∷ xs) h = All-drop n xs h.1

  pub All-append : (xs ys : List A) → All P xs → All P ys → All P (xs ++ ys)
  All-append [] ys h k = k
  All-append (x ∷ xs) ys h k = (h.0, All-append xs ys h.1 k)

  pub All-keep : (f : A → Bool) (xs : List A) → All P xs → All P (keep f xs)
  All-keep f [] h = tt
  All-keep f (x ∷ xs) h = elim (Bool-cases (f x)) [
    | inl e ↦ rw e (h.0, All-keep f xs h.1)
    | inr e ↦ rw e (All-keep f xs h.1)
  ]

pub All-edit :
    {A B : Type 0} (P : A → Type 0) (Q : B → Type 0) (f : A → B)
    → ((a : A) → P a → Q (f a))
    → (xs : List A) → All P xs
    → All Q (map f xs)
All-edit P Q f h [] a = tt
All-edit P Q f h (x ∷ xs) a = (h x a.0, All-edit P Q f h xs a.1)

module _ {A : Type 0} (f : A → Bool) where
  pub All-passing : (xs : List A) → All (λ x. f x ≡ true) (keep f xs)
  All-passing [] = tt
  All-passing (x ∷ xs) = elim (Bool-cases (f x)) [
    | inl e ↦ rw e (e, All-passing xs)
    | inr e ↦ rw e (All-passing xs)
  ]

  pub find-true : (xs : List A) (x : A) → find f xs ≡ some x → f x ≡ true
  find-true [] x h = absurd (cc)
  find-true (y ∷ xs) x h = elim (Bool-cases (f y)) [
    | inl e ↦ let k = rw e at h in ap f (sym (some-inj y x k)) ∙ e
    | inr e ↦ let k = rw e at h in find-true xs x k
  ]

  pub any-append : (xs ys : List A) → any f (xs ++ ys) ≡ (any f xs || any f ys)
  any-append [] ys = refl
  any-append (x ∷ xs) ys = ground (arith, any-append xs ys)
