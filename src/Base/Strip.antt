-- ===== src/Base/Strip.antt =====
-- `str.strip` and the test for a blank text.
use Prim.Native.Nat.{ℕ}
use mathlib.Core.Path.{◌≡◌, refl, sym, ap, ◌∙◌}
use mathlib.Core.Bool.{Bool, true, not, ◌&&◌, ◌||◌}
use mathlib.Core.Option.{Option, none, some}
use mathlib.Core.List.{[], ◌∷◌}
use native.Mathlib.Omega.{arith}
use materials_manager.Base.Tests.{◌==◌, leb, if◌then◌else◌}
use materials_manager.Base.Lists.{any}
use materials_manager.Base.Codes.{Text, truthy}

abbrev between : ℕ → ℕ → ℕ → Bool
between low high c = leb low c && leb c high

-- `str.isspace` of a code point.
unfoldable pub is_space : ℕ → Bool
is_space c =
    between 9 13 c
    || (between 28 32 c
        || (c == 133
            || (c == 160
                || (c == 5760
                    || (between 8192 8202 c
                        || (between 8232 8233 c || (c == 8239 || (c == 8287 || c == 12288))))))))

unfoldable pub strip_start : Text → Text
strip_start [] = []
strip_start (c ∷ s) = let rest = strip_start s in if is_space c then rest else c ∷ s

unfoldable pub strip_end : Text → Text
strip_end [] = []
strip_end (c ∷ s) =
    let rest = strip_end s in if is_space c && not (truthy rest) then [] else c ∷ rest

unfoldable pub strip : Text → Text
unfolding strip_start strip_end
strip s = strip_end (strip_start s)

-- `_is_blank`: no text, or nothing but space.
unfoldable pub is_blank : Option Text → Bool
is_blank none = true
is_blank (some s) = not (truthy (strip s))

abbrev has_ink : Text → Bool
has_ink s = any (λ c. not (is_space c)) s

truthy-strip_end : (s : Text) → truthy (strip_end s) ≡ has_ink s
unfolding strip_end
truthy-strip_end [] = refl
truthy-strip_end (c ∷ s) = ground (arith, truthy-strip_end s)

has_ink-strip_end : (s : Text) → has_ink (strip_end s) ≡ has_ink s
unfolding strip_end
has_ink-strip_end [] = refl
has_ink-strip_end (c ∷ s) = ground (arith, has_ink-strip_end s, truthy-strip_end s)

has_ink-strip_start : (s : Text) → has_ink (strip_start s) ≡ has_ink s
unfolding strip_start
has_ink-strip_start [] = refl
has_ink-strip_start (c ∷ s) = ground (arith, has_ink-strip_start s)

truthy-strip : (s : Text) → truthy (strip s) ≡ has_ink s
unfolding strip
truthy-strip s = truthy-strip_end (strip_start s) ∙ has_ink-strip_start s

has_ink-strip : (s : Text) → has_ink (strip s) ≡ has_ink s
unfolding strip
has_ink-strip s = has_ink-strip_end (strip_start s) ∙ has_ink-strip_start s

-- What is left after stripping is blank only if it was.
pub is_blank-strip : (s : Text) → is_blank (some (strip s)) ≡ is_blank (some s)
unfolding is_blank
is_blank-strip s = ap not (truthy-strip (strip s) ∙ has_ink-strip s) ∙ ap not (sym (truthy-strip s))
