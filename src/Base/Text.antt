-- ===== src/Base/Text.antt =====
-- Text as code points, with the prefixes and the cases that the source looks at.
use datafusion_go.Base.Tests.{leb, ◌==◌, if◌then◌else◌}
use Prim.Native.Nat.{ℕ, ◌+◌}
use Prim.Native.Char.{code}
use Prim.Native.String.{String}
use mathlib.Core.Bool.{Bool, true, false, ◌&&◌}
use mathlib.Core.Option.{Option, none, some}
use mathlib.Core.List.{List, [], ◌∷◌, map}

abbrev pub codes : String → List ℕ
codes String.[] = []
codes (String.◌∷◌ c s) = code c ∷ codes s

abbrev pub same_codes : List ℕ → List ℕ → Bool
same_codes [] [] = true
same_codes (c ∷ cs) (d ∷ ds) = (c == d) && same_codes cs ds
same_codes _ _ = false

abbrev pub append : String → String → String
append String.[] t = t
append (String.◌∷◌ c s) t = String.◌∷◌ c (append s t)

-- What follows a prefix, if the text has it: strings.HasPrefix, and a slice behind the prefix.
abbrev pub strip_prefix : String → String → Option String
strip_prefix String.[] s = some s
strip_prefix (String.◌∷◌ c p) String.[] = none
strip_prefix (String.◌∷◌ c p) (String.◌∷◌ d s) = if code c == code d then strip_prefix p s else none

-- strings.TrimPrefix.
abbrev pub or_text : Option String → String → String
or_text none s = s
or_text (some t) s = t

abbrev pub trim_prefix : String → String → String
trim_prefix p s = or_text (strip_prefix p s) s

lower_code : ℕ → ℕ
lower_code c = if leb 65 c && leb c 90 then c + 32 else c

-- `strings.ToLower(s) == t`, for a text `t` in lower case, of ASCII characters other than i and k,
-- which other characters are lowered to.
unfoldable pub lower_is : String → String → Bool
unfolding lower_code
lower_is s t = same_codes (map lower_code (codes s)) (codes t)
