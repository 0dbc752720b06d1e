-- ===== src/Base/Texts.antt =====
-- Go's `strings.ToLower`, `strings.Contains` and `strings.EqualFold` on texts of ASCII characters,
-- such as addresses.
use Prim.Native.Char.{Char, code}
use Prim.Native.String.{String, char_at}
use text.Mathlib.Text.{◌==◌ as str_eq}
use text.Mathlib.TextEquality.{eq_iff}
use text.Mathlib.TextPositions.{eq_refl}
use Prim.Native.Nat.{◌-◌}
use mathlib.Core.Path.{◌≡◌}
use mathlib.Core.Bool.{Bool, true, false, ◌&&◌, ◌||◌}
use native.Mathlib.Omega.{arith}
use web3_indexer_go.Base.Tests.{leb, ◌==◌, if◌then◌else◌}

-- `A` is 65 and `Z` is 90.
abbrev lower_char : Char → Char
lower_char c =
    if leb 65 (code c) && leb (code c) 90
    then char_at "abcdefghijklmnopqrstuvwxyz" (code c - 65)
    else c

unfoldable pub to_lower : String → String
to_lower String.[] = String.[]
to_lower (String.◌∷◌ c s) = String.◌∷◌ (lower_char c) (to_lower s)

unfoldable pub equal_fold : String → String → Bool
equal_fold s t = str_eq (to_lower s) (to_lower t)

pub equal_fold_refl : (s : String) → equal_fold s s ≡ true
unfolding equal_fold
equal_fold_refl s = eq_refl (to_lower s)

pub str_eq→ne : (s t : String) → str_eq s t ≡ false → ¬ (s ≡ t)
str_eq→ne s t h e = ground (arith, eq_iff s t)

unfoldable pub has_prefix : String → String → Bool
has_prefix String.[] s = true
has_prefix (String.◌∷◌ c p) String.[] = false
has_prefix (String.◌∷◌ c p) (String.◌∷◌ d s) = code c == code d && has_prefix p s

-- `strings.Contains`.
unfoldable pub contains : String → String → Bool
unfolding has_prefix
contains String.[] sub = has_prefix sub String.[]
contains (String.◌∷◌ c s) sub = has_prefix sub (String.◌∷◌ c s) || contains s sub
