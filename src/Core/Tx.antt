-- ===== src/Core/Tx.antt =====
-- backend/app/core/database.py: one request is one transaction. `get_db` commits after the handler
-- and rolls back if it raises, so an action that raises has no new state.
pub mod Ensures
pub mod Inversion
pub mod Runs
use materials_manager.Base.{Bool, true, false, Option, none, some, List, [], ◌∷◌}
use materials_manager.Core.Errors.{AppError, Failure, app}

pub data Result {ℓ} (A : Type ℓ) : Type ℓ where
  ok : A → Result A
  err : Failure → Result A

abbrev pub Tx : Type 0 → Type 0 → Type 0
Tx S A = S → Result (A × S)

infixl 5 ◌>>=◌ ◌>>◌
unfoldable pub ◌>>=◌ : {S A B : Type 0} → Tx S A → (A → Tx S B) → Tx S B
◌>>=◌ m f s = elim (m s) [ ok r ↦ f r.0 r.1 | err e ↦ err e ]

abbrev pub ◌>>◌ : {S A B : Type 0} → Tx S A → Tx S B → Tx S B
m >> k = m >>= λ _. k

unfoldable pub pure : {S A : Type 0} → A → Tx S A
pure a s = ok (a, s)

unfoldable pub raise : {S A : Type 0} → AppError → Tx S A
raise e s = err (app e)

unfoldable pub gets : {S A : Type 0} → (S → A) → Tx S A
gets f s = ok (f s, s)

unfoldable pub modify : {S : Type 0} → (S → S) → Tx S (Unit {0})
modify f s = ok (tt, f s)

-- `if condition: raise error`
unfoldable pub raise_if : {S : Type 0} → Bool → AppError → Tx S (Unit {0})
unfolding raise pure
raise_if true e = raise e
raise_if false e = pure tt

-- `if item is None: raise error`
unfoldable pub or_raise : {S A : Type 0} → Option A → AppError → Tx S A
unfolding raise pure
or_raise none e = raise e
or_raise (some a) e = pure a

-- `d[key]`
unfoldable pub or_key_error : {S A : Type 0} → Option A → Tx S A
or_key_error none s = err Failure.key_error
or_key_error (some a) s = ok (a, s)

-- A `for` loop whose body may raise.
unfoldable pub for_each : {S A : Type 0} → List A → (A → Tx S (Unit {0})) → Tx S (Unit {0})
unfolding pure
for_each [] f = pure tt
for_each (a ∷ rest) f = f a >> for_each rest f

-- A name for the actions above on an `unfolding` line.
unfoldable pub actions : Unit {0}
unfolding ◌>>=◌ pure raise gets modify raise_if or_raise or_key_error for_each
actions = tt
