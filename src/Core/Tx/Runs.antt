-- ===== src/Core/Tx/Runs.antt =====
-- One step of a run at a known state: what a bind does when its first action returns or raises.
use materials_manager.Base.{◌≡◌, refl, ap, Bool, true, false, Option, none, some}
use materials_manager.Core.Errors.{AppError, Failure, app}
use materials_manager.Core.Tx.{
  Result, ok, err, Tx, ◌>>=◌, gets, or_raise, or_key_error, raise, raise_if, pure, modify,
}

module _ {S A B : Type 0} where
  after : (A → Tx S B) → Result (A × S) → Result (B × S)
  after f (ok r) = f r.0 r.1
  after f (err e) = err e

  pub bind-ok :
      (m : Tx S A) (f : A → Tx S B) (s : S) (a : A) (t : S) → m s ≡ ok (a, t) → (m >>= f) s ≡ f a t
  unfolding ◌>>=◌ after
  bind-ok m f s a t e = ap (after f) e

  pub bind-err :
      (m : Tx S A) (f : A → Tx S B) (s : S) (x : Failure) → m s ≡ err x → (m >>= f) s ≡ err x
  unfolding ◌>>=◌ after
  bind-err m f s x e = ap (after f) e

module _ {S A : Type 0} where
  pub or_key_error-some : (o : Option A) (a : A) (s : S) → o ≡ some a → or_key_error o s ≡ ok (a, s)
  unfolding or_key_error
  or_key_error-some o a s e = rw (or_key_error, e) refl

  pub or_raise-none :
      (o : Option A) (x : AppError) (s : S) → o ≡ none → or_raise o x s ≡ err (app x)
  unfolding or_raise raise
  or_raise-none o x s e = rw (or_raise, e) refl

  pub gets-ok : (f : S → A) (s : S) → gets f s ≡ ok (f s, s)
  unfolding gets
  gets-ok f s = refl

module _ {S : Type 0} where
  pub raise_if-passes : (c : Bool) (x : AppError) (s : S) → c ≡ false → raise_if c x s ≡ ok (tt, s)
  unfolding raise_if pure
  raise_if-passes c x s e = rw (raise_if, e) refl

  pub raise_if-raises : (c : Bool) (x : AppError) (s : S) → c ≡ true → raise_if c x s ≡ err (app x)
  unfolding raise_if raise
  raise_if-raises c x s e = rw (raise_if, e) refl

  pub modify-ok : (f : S → S) (s : S) → modify f s ≡ ok (tt, f s)
  unfolding modify
  modify-ok f s = refl
