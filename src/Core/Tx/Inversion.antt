-- ===== src/Core/Tx/Inversion.antt =====
-- What a run that succeeded has passed through, one lemma for each way to begin an action.
use materials_manager.Base.{◌≡◌, refl, Bool, true, false, Option, none, some}
use materials_manager.Core.Errors.{AppError}
use materials_manager.Core.Tx.{
  Result, ok, err, Tx, ◌>>=◌, ◌>>◌, gets, or_raise, raise, raise_if, pure, modify,
}

module _ {S A B : Type 0} where
  split_result :
      (r : Result (A × S)) (f : A → Tx S B) (q : B × S)
      → (elim r as (λ _. Result (B × S)) [ ok q ↦ f q.0 q.1 | err e ↦ err e ]) ≡ ok q
      → (a : A) × (t : S) × (r ≡ ok (a, t)) × (f a t ≡ ok q)
  split_result (ok r) f q h = (r.0, r.1, refl, h)
  split_result (err e) f q h = absurd (cc)

  pub bind-inv :
      (m : Tx S A) (f : A → Tx S B) (s : S) (q : B × S)
      → (m >>= f) s ≡ ok q
      → (a : A) × (t : S) × (m s ≡ ok (a, t)) × (f a t ≡ ok q)
  unfolding ◌>>=◌
  bind-inv m f s q h = split_result (m s) f q h

  pub gets-inv :
      (g : S → A) (f : A → Tx S B) (s : S) (q : B × S) → (gets g >>= f) s ≡ ok q → f (g s) s ≡ ok q
  unfolding ◌>>=◌ gets
  gets-inv g f s q h = h

  pub or_raise-inv :
      (o : Option A) (e : AppError) (f : A → Tx S B) (s : S) (q : B × S)
      → (or_raise o e >>= f) s ≡ ok q
      → (a : A) × (o ≡ some a) × (f a s ≡ ok q)
  unfolding ◌>>=◌ or_raise raise pure
  or_raise-inv none e f s q h = absurd (cc)
  or_raise-inv (some a) e f s q h = (a, refl, h)

module _ {S B : Type 0} where
  pub raise_if-inv :
      (c : Bool) (e : AppError) (k : Tx S B) (s : S) (q : B × S)
      → (raise_if c e >> k) s ≡ ok q
      → (c ≡ false) × (k s ≡ ok q)
  unfolding ◌>>=◌ raise_if raise pure
  raise_if-inv true e k s q h = absurd (cc)
  raise_if-inv false e k s q h = (refl, h)

  pub modify-inv :
      (g : S → S) (k : Tx S B) (s : S) (q : B × S) → (modify g >> k) s ≡ ok q → k (g s) ≡ ok q
  unfolding ◌>>=◌ modify
  modify-inv g k s q h = h

module _ {S : Type 0} where
  pub raise_if-last :
      (c : Bool) (e : AppError) (s : S) (q : Unit {0} × S)
      → raise_if c e s ≡ ok q
      → (c ≡ false) × (q.1 ≡ s)
  unfolding raise_if raise pure
  raise_if-last true e s q h = absurd (cc)
  raise_if-last false e s q h = (refl, cc)

  pub modify-last : (g : S → S) (s : S) (q : Unit {0} × S) → modify g s ≡ ok q → q.1 ≡ g s
  unfolding modify
  modify-last g s q h = cc

module _ {S A : Type 0} where
  pub pure-inv : (a : A) (s : S) (q : A × S) → pure a s ≡ ok q → q.0 ≡ a
  unfolding pure
  pure-inv a s q h = cc

  pub pure-state : (a : A) (s : S) (q : A × S) → pure a s ≡ ok q → q.1 ≡ s
  unfolding pure
  pure-state a s q h = cc

  pub or_raise-last :
      (o : Option A) (e : AppError) (s : S) (q : A × S)
      → or_raise o e s ≡ ok q
      → (o ≡ some q.0) × (q.1 ≡ s)
  unfolding or_raise raise pure
  or_raise-last none e s q h = absurd (cc)
  or_raise-last (some a) e s q h = (cc, cc)
