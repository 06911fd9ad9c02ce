-- ===== src/Base/Lists.antt =====
-- Lists measured by native numbers, quantifiers over lists, and the searches of the services.
use Prim.Native.Nat.{ℕ, zero, suc, ◌+◌}
use mathlib.Core.Path.{◌≡◌, refl, ap, ◌∙◌}
use mathlib.Core.Bool.{Bool, true, false, not, ◌&&◌, ◌||◌}
use mathlib.Core.List.{List, [], ◌∷◌, ◌++◌, map}
use mathlib.Core.Option.{Option, none, some}
use native.Mathlib.Omega.{arith}
use materials_manager.Base.Tests.{if◌then◌else◌, ◌==◌}

module _ {ℓ} {A : Type ℓ} where
  abbrev pub length : List A → ℕ
  length [] = 0
  length (x ∷ xs) = suc (length xs)

  abbrev pub take : ℕ → List A → List A
  take zero xs = []
  take (suc n) [] = []
  take (suc n) (x ∷ xs) = x ∷ take n xs

  abbrev pub drop : ℕ → List A → List A
  drop zero xs = xs
  drop (suc n) [] = []
  drop (suc n) (x ∷ xs) = drop n xs

  -- Python's `any(f(x) for x in xs)`.
  abbrev pub any : (A → Bool) → List A → Bool
  any f [] = false
  any f (x ∷ xs) = f x || any f xs

  -- Python's `all(f(x) for x in xs)`.
  abbrev pub all : (A → Bool) → List A → Bool
  all f [] = true
  all f (x ∷ xs) = f x && all f xs

  -- `[x for x in xs if f(x)]`, and a `WHERE` clause.
  abbrev pub keep : (A → Bool) → List A → List A
  keep f [] = []
  keep f (x ∷ xs) = let rest = keep f xs in if f x then x ∷ rest else rest

  -- The first row that passes.
  abbrev pub find : (A → Bool) → List A → Option A
  find f [] = none
  find f (x ∷ xs) = if f x then some x else find f xs

  abbrev pub All {κ} : (A → Type κ) → List A → Type κ
  All P [] = Unit
  All P (x ∷ xs) = P x × All P xs

module _ {ℓ} {A : Type ℓ} where
  pub length-append : (xs ys : List A) → length (xs ++ ys) ≡ length xs + length ys
  length-append [] ys = omega arith
  length-append (x ∷ xs) ys = omega (arith, length-append xs ys)

  pub length-map {κ} : {B : Type κ} (f : A → B) (xs : List A) → length (map f xs) ≡ length xs
  length-map f [] = refl
  length-map f (x ∷ xs) = ap suc (length-map f xs)

  pub All-map {κ} : {P Q : A → Type κ} → ((a : A) → P a → Q a) → (xs : List A) → All P xs → All Q xs
  All-map f [] h = tt
  All-map f (x ∷ xs) h = (f x h.0, All-map f xs h.1)

module _ {ℓ} {A : Type ℓ} (f : A → Bool) (x : A) (xs : List A) where
  pub keep-drops : f x ≡ false → keep f (x ∷ xs) ≡ keep f xs
  keep-drops e = rw e refl

  pub keep-keeps : f x ≡ true → keep f (x ∷ xs) ≡ x ∷ keep f xs
  keep-keeps e = rw e refl

  pub find-skips : f x ≡ false → find f (x ∷ xs) ≡ find f xs
  find-skips e = rw e refl

  pub find-hits : f x ≡ true → find f (x ∷ xs) ≡ some x
  find-hits e = rw e refl

pub keep-ext :
    {A : Type 0} (f g : A → Bool) (xs : List A) → ((x : A) → f x ≡ g x) → keep f xs ≡ keep g xs
keep-ext f g [] h = refl
keep-ext f g (x ∷ xs) h =
    ap (λ b. if b then x ∷ keep f xs else keep f xs) (h x)
    ∙ ap (λ r. if g x then x ∷ r else r) (keep-ext f g xs h)

-- Membership of a number, as `in` tests it.
abbrev pub contains : ℕ → List ℕ → Bool
contains n [] = false
contains n (x ∷ xs) = n == x || contains n xs

-- `len(ids) == len(set(ids))`: no number stands in the list twice.
abbrev pub all_distinct : List ℕ → Bool
all_distinct [] = true
all_distinct (n ∷ ns) = not (contains n ns) && all_distinct ns
