-- ===== src/Core/Common.antt =====
-- backend/app/services/common.py: the checks that the services share.
pub mod Inversion
use materials_manager.Base.{ℕ, Option, none, some, ◌==◌, not}
use materials_manager.Core.Errors.{version_conflict}
use materials_manager.Core.Tx.{Tx, raise_if, pure}

-- `expected` is `None` where the request states no version.
unfoldable pub validate_version : {S : Type 0} → Option ℕ → ℕ → Tx S (Unit {0})
validate_version none actual = pure tt
validate_version (some expected) actual = raise_if (not (expected == actual)) version_conflict
