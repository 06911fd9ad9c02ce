-- ===== src/Access/Headers.antt =====
-- `get_if_match_version` of backend/app/core/permissions.py.
use materials_manager.Base.{
  ℕ, ℤ, Text, Option, none, some, Bool, [], ◌∷◌, not, ◌&&◌, ◌==◌, strip, truthy, is_blank,
  if◌then◌else◌,
}
use materials_manager.Access.Integers.{int_of}

-- `s.strip('"')`
abbrev pub is_quote : ℕ → Bool
is_quote c = c == 34

unfoldable pub strip_quotes_start : Text → Text
strip_quotes_start [] = []
strip_quotes_start (c ∷ s) = let rest = strip_quotes_start s in if is_quote c then rest else c ∷ s

unfoldable pub strip_quotes_end : Text → Text
strip_quotes_end [] = []
strip_quotes_end (c ∷ s) =
    let rest = strip_quotes_end s in if is_quote c && not (truthy rest) then [] else c ∷ rest

-- The version of an `If-Match` header.
unfoldable pub get_if_match_version : Option Text → Option ℤ
get_if_match_version none = none
get_if_match_version (some header) =
    if is_blank (some header)
    then none
    else int_of (strip_quotes_end (strip_quotes_start (strip header)))
