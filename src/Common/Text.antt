-- ===== src/Common/Text.antt =====
-- The functions of Go's package strings that the program calls, on the code points of a text.
pub mod Words
use Prim.Native.Nat.{ℕ, ◌+◌}
use Prim.Native.Char.{Char, code}
use Prim.Native.String.{String}
use mathlib.Core.Bool.{Bool, true, false, not, ◌&&◌, ◌||◌}
use mathlib.Core.Option.{Option, none, some}
use mathlib.Core.List.{List, [], ◌∷◌, ◌++◌, map}
use jobsd.Common.Tests.{leb, ◌==◌, if◌then◌else◌}

-- A text as its code points: what the functions below walk over.
abbrev pub Runes : Type 0
Runes = List ℕ

abbrev pub runes : String → Runes
runes String.[] = []
runes (String.◌∷◌ c s) = code c ∷ runes s

-- unicode.IsSpace
unfoldable pub is_space : ℕ → Bool
is_space c =
    (leb 9 c && leb c 13)
    || c == 32
    || c == 0x85
    || c == 0xa0
    || c == 0x1680
    || (leb 0x2000 c && leb c 0x200a)
    || c == 0x2028
    || c == 0x2029
    || c == 0x202f
    || c == 0x205f
    || c == 0x3000

abbrev pub is_empty {ℓ} : {A : Type ℓ} → List A → Bool
is_empty [] = true
is_empty (_ ∷ _) = false

-- strings.TrimSpace
unfoldable pub trim_left : Runes → Runes
trim_left [] = []
trim_left (c ∷ s) = let rest = trim_left s in if is_space c then rest else c ∷ s

unfoldable pub trim_right : Runes → Runes
trim_right [] = []
trim_right (c ∷ s) = let rest = trim_right s in if is_space c && is_empty rest then [] else c ∷ rest

unfoldable pub trim_space : Runes → Runes
unfolding trim_left trim_right
trim_space s = trim_left (trim_right s)

-- Whether a field goes on with the text that follows.
abbrev pub goes_on : Runes → Bool
goes_on [] = false
goes_on (c ∷ s) = not (is_space c)

abbrev pub push_front : ℕ → List Runes → List Runes
push_front c [] = (c ∷ []) ∷ []
push_front c (f ∷ fs) = (c ∷ f) ∷ fs

-- strings.Fields
unfoldable pub fields : Runes → List Runes
unfolding is_space
fields [] = []
fields (c ∷ s) =
    let rest = fields s in
    if is_space c then rest else if goes_on s then push_front c rest else (c ∷ []) ∷ rest

-- strings.Join
unfoldable pub join : Runes → List Runes → Runes
join sep [] = []
join sep (f ∷ []) = f
join sep (f ∷ g ∷ fs) = f ++ (sep ++ join sep (g ∷ fs))

-- strings.ToLower on a code point of ASCII. Go lowers other letters too, none of them to a letter
-- of a word that the program compares with.
unfoldable pub lower : ℕ → ℕ
lower c = if leb b'A' c && leb c b'Z' then c + 32 else c

unfoldable pub to_lower : Runes → Runes
unfolding lower
to_lower = map lower

unfoldable pub text_eq : Runes → Runes → Bool
text_eq [] [] = true
text_eq [] (d ∷ t) = false
text_eq (c ∷ s) [] = false
text_eq (c ∷ s) (d ∷ t) = (c == d) && text_eq s t

-- strings.TrimPrefix
unfoldable pub strip : Runes → Runes → Option Runes
strip [] s = some s
strip (c ∷ p) [] = none
strip (c ∷ p) (d ∷ s) = let rest = strip p s in if c == d then rest else none

unfoldable pub trim_prefix : Runes → Runes → Runes
unfolding strip
trim_prefix s prefix = elim (strip prefix s) [ none ↦ s | some rest ↦ rest ]

-- strings.TrimSpace(s) == ""
unfoldable pub is_blank : String → Bool
unfolding trim_space is_space
is_blank s = is_empty (trim_space (runes s))
