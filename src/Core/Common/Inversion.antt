-- ===== src/Core/Common/Inversion.antt =====
-- A run that succeeded has passed its check of the version.
use materials_manager.Base.{ℕ, Option, none, some, ◌≡◌}
use materials_manager.Core.Common.{validate_version}
use materials_manager.Core.Tx.{Tx, ok, ◌>>◌, ◌>>=◌, pure}
use materials_manager.Core.Tx.Inversion.{raise_if-inv}

pub validate_version-inv :
    {S A : Type 0} (expected : Option ℕ) (actual : ℕ) (k : Tx S A) (s : S) (q : A × S)
    → (validate_version expected actual >> k) s ≡ ok q
    → k s ≡ ok q
unfolding validate_version ◌>>=◌ pure
validate_version-inv none actual k s q h = h
validate_version-inv (some expected) actual k s q h = (raise_if-inv _ _ k s q h).1
