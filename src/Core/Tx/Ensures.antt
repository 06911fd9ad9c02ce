-- ===== src/Core/Tx/Ensures.antt =====
-- What a successful action leaves behind, with one rule for each way to build an action.
use materials_manager.Base.{
  ◌≡◌, refl, subst, Bool, true, false, Option, none, some, List, [], ◌∷◌, arith,
}
use materials_manager.Core.Errors.{AppError}
use materials_manager.Core.Tx.{
  Result, ok, err, Tx, ◌>>=◌, pure, gets, modify, raise, raise_if, or_raise, or_key_error, for_each,
}

-- From a state where `P` holds, `m` raises or leaves a result and a state where `Q` holds.
pub record Ensures {S A : Type 0} (P : S → Type 0) (m : Tx S A) (Q : A → S → Type 0) : Type 0 where
  pub at : (s : S) → P s → (a : A) (s' : S) → m s ≡ ok (a, s') → Q a s'

module _ {S A B : Type 0} where
  bind_at :
      (r : Result (A × S)) (f : A → Tx S B) (Q : A → S → Type 0) (b : B) (s' : S)
      → ((a : A) (t : S) → r ≡ ok (a, t) → Q a t)
      → (elim r as (λ _. Result (B × S)) [ ok q ↦ f q.0 q.1 | err e ↦ err e ]) ≡ ok (b, s')
      → (a : A) × (t : S) × Q a t × (f a t ≡ ok (b, s'))
  bind_at (ok q) f Q b s' h e = (q.0, q.1, h q.0 q.1 refl, e)
  bind_at (err x) f Q b s' h e = absurd (ground arith)

  pub Ensures-bind :
      {P : S → Type 0} {R : B → S → Type 0} (Q : A → S → Type 0) {m : Tx S A} {f : A → Tx S B}
      → Ensures P m Q
      → ((a : A) → Ensures (Q a) (f a) R)
      → Ensures P (m >>= f) R
  unfolding ◌>>=◌
  Ensures-bind Q {m} {f} hm hf = record {
    at = λ s p b s' e.
        let (a, t, q, k) = bind_at (m s) f Q b s' (hm.at s p) e in (hf a).at t q b s' k;
  }

module _ {S A : Type 0} where
  at_result :
      (Q : A → S → Type 0) (r : A × S) (b : A) (s' : S) → ok r ≡ ok (b, s') → Q r.0 r.1 → Q b s'
  at_result Q r b s' e h = let e' : r ≡ (b, s') = cc in subst (λ q. Q q.0 q.1) e' h

module _ {S A : Type 0} {P : S → Type 0} {Q : A → S → Type 0} where
  pub Ensures-pure : (a : A) → ((s : S) → P s → Q a s) → Ensures P (pure a) Q
  unfolding pure
  Ensures-pure a h = record { at = λ s p b s' e. at_result Q (a, s) b s' e (h s p) }

  pub Ensures-gets : (f : S → A) → ((s : S) → P s → Q (f s) s) → Ensures P (gets f) Q
  unfolding gets
  Ensures-gets f h = record { at = λ s p b s' e. at_result Q (f s, s) b s' e (h s p) }

  pub Ensures-raise : (e : AppError) → Ensures P (raise e) Q
  unfolding raise
  Ensures-raise x = record { at = λ s p b s' e. cc }

  pub Ensures-or_raise :
      (o : Option A) (x : AppError)
      → ((a : A) (s : S) → o ≡ some a → P s → Q a s)
      → Ensures P (or_raise o x) Q
  unfolding or_raise
  Ensures-or_raise none x h = record { at = λ s p b s' e. cc }
  Ensures-or_raise (some a) x h = record {
    at = λ s p b s' e. at_result Q (a, s) b s' e (h a s refl p);
  }

  pub Ensures-or_key_error :
      (o : Option A) → ((a : A) (s : S) → o ≡ some a → P s → Q a s) → Ensures P (or_key_error o) Q
  unfolding or_key_error
  Ensures-or_key_error none h = record { at = λ s p b s' e. cc }
  Ensures-or_key_error (some a) h = record {
    at = λ s p b s' e. at_result Q (a, s) b s' e (h a s refl p);
  }

module _ {S : Type 0} {P : S → Type 0} {Q : Unit {0} → S → Type 0} where
  pub Ensures-modify : (f : S → S) → ((s : S) → P s → Q tt (f s)) → Ensures P (modify f) Q
  unfolding modify
  Ensures-modify f h = record { at = λ s p b s' e. at_result Q (tt, f s) b s' e (h s p) }

  pub Ensures-raise_if :
      (c : Bool) (x : AppError) → ((s : S) → c ≡ false → P s → Q tt s) → Ensures P (raise_if c x) Q
  unfolding raise_if
  Ensures-raise_if true x h = record { at = λ s p b s' e. cc }
  Ensures-raise_if false x h = record { at = λ s p b s' e. at_result Q (tt, s) b s' e (h s refl p) }

-- `m` keeps `P`.
abbrev pub Keeps : {S A : Type 0} → (S → Type 0) → Tx S A → Type 0
Keeps P m = Ensures P m (λ _. P)

module _ {S A : Type 0} {P : S → Type 0} where
  pub Keeps-for_each :
      (f : A → Tx S (Unit {0})) (as' : List A)
      → ((a : A) → Keeps P (f a))
      → Keeps P (for_each as' f)
  unfolding for_each
  Keeps-for_each f [] h = Ensures-pure tt (λ s p. p)
  Keeps-for_each f (a ∷ rest) h = Ensures-bind (λ _. P) (h a) (λ _. Keeps-for_each f rest h)

  pub Keeps-pure : (a : A) → Keeps P (pure a)
  Keeps-pure a = Ensures-pure a (λ s p. p)

  pub Keeps-gets : (f : S → A) → Keeps P (gets f)
  Keeps-gets f = Ensures-gets f (λ s p. p)

  pub Keeps-or_raise : (o : Option A) (x : AppError) → Keeps P (or_raise o x)
  Keeps-or_raise o x = Ensures-or_raise o x (λ a s e p. p)

  pub Keeps-or_key_error : (o : Option A) → Keeps P (or_key_error o)
  Keeps-or_key_error o = Ensures-or_key_error o (λ a s e p. p)

  pub Keeps-bind :
      {B : Type 0} {m : Tx S A} {f : A → Tx S B}
      → Keeps P m
      → ((a : A) → Keeps P (f a))
      → Keeps P (m >>= f)
  Keeps-bind hm hf = Ensures-bind (λ _. P) hm hf

module _ {S : Type 0} {P : S → Type 0} where
  pub Keeps-raise_if : (c : Bool) (x : AppError) → Keeps P (raise_if c x)
  Keeps-raise_if c x = Ensures-raise_if c x (λ s e p. p)

-- For actions that read and never write.
pub ruleset keeps_rules = (
  Keeps-for_each, Keeps-pure, Keeps-gets, Keeps-or_raise, Keeps-or_key_error, Keeps-bind,
  Keeps-raise_if,
)
