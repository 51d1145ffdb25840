-- ===== src/Base/Text.antt =====
-- Texts as lists of code points, for the regular expressions that the source tests identifiers by.
use Prim.Native.Nat.{ℕ}
use Prim.Native.Char.{code}
use Prim.Native.String.{String}
use mathlib.Core.Bool.{Bool, true, ◌&&◌, ◌||◌}
use mathlib.Core.List.{List, [], ◌∷◌}
use phlebas.Base.Tests.{leb, ◌==◌, ◌===◌, if◌then◌else◌}
use phlebas.Base.Lists.{length}
use mathlib.Core.Bool.{false}
use mathlib.Core.Option.{Option, none, some}

abbrev pub codes : String → List ℕ
codes String.[] = []
codes (String.◌∷◌ c s) = code c ∷ codes s

-- The class `[a-z]`, `[A-Z]`, `[0-9]`.
abbrev pub in_range : ℕ → ℕ → ℕ → Bool
in_range lo hi c = leb lo c && leb c hi

abbrev pub is_alphanumeric : ℕ → Bool
is_alphanumeric c = in_range b'a' b'z' c || in_range b'A' b'Z' c || in_range b'0' b'9' c

-- The class `[0-9a-f]`.
abbrev pub is_lower_hex : ℕ → Bool
is_lower_hex c = in_range b'0' b'9' c || in_range b'a' b'f' c

unfoldable pub all_in : (ℕ → Bool) → List ℕ → Bool
all_in p [] = true
all_in p (c ∷ cs) = p c && all_in p cs

-- `/^[class]{lo,hi}$/.test(text)`.
unfoldable pub matches_class : (ℕ → Bool) → ℕ → ℕ → String → Bool
unfolding all_in
matches_class p lo hi text =
    all_in p (codes text) && leb lo (length (codes text)) && leb (length (codes text)) hi

-- `texts.includes(text)`, or `has` of a set of texts.
unfoldable pub includes : List String → String → Bool
includes [] text = false
includes (t ∷ ts) text = t === text || includes ts text

-- What follows a prefix of a text.
unfoldable pub strip_prefix : List ℕ → List ℕ → Option (List ℕ)
strip_prefix [] text = some text
strip_prefix (p ∷ ps) [] = none
strip_prefix (p ∷ ps) (c ∷ cs) = if p == c then strip_prefix ps cs else none

-- A text up to the first `mark`, and what follows it.
unfoldable pub split_at : ℕ → List ℕ → List ℕ × Option (List ℕ)
split_at mark [] = ([], none)
split_at mark (c ∷ cs) =
    let rest = split_at mark cs in if c == mark then ([], some cs) else (c ∷ rest.0, rest.1)

-- The order of the code units, which `sort` without a comparator goes by.
unfoldable pub text_le : List ℕ → List ℕ → Bool
text_le [] text = true
text_le (c ∷ cs) [] = false
text_le (c ∷ cs) (d ∷ ds) = if c == d then text_le cs ds else leb c d

-- `/^(0|[1-9][0-9]{0,19})$/`.
unfoldable pub is_numeral : List ℕ → Bool
is_numeral [] = false
is_numeral (c ∷ []) = in_range b'0' b'9' c
is_numeral (c ∷ d ∷ cs) =
    in_range b'1' b'9' c && all_in (in_range b'0' b'9') (d ∷ cs) && leb (length cs) 18
