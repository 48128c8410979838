-- ===== src/Text.antt =====
-- The functions of Go's package `strings` that the operator calls, over texts as lists of
-- characters: Cut and SplitN and SplitSeq at a one-character separator, TrimSpace, Join, and
-- Contains after ToLower.
pub mod Split
pub mod Order
use sonarqube_operator.Prelude.{
  ℕ, zero, suc, ◌+◌, Char, code, String, ◌<>◌, Bool, true, false, ◌&&◌, ◌||◌, Option, none, some,
  List, [], ◌∷◌, map, eqb, leb, ltb, if◌then◌else◌,
}

abbrev prepend_first : Char → Option (String × String) → Option (String × String)
prepend_first c none = none
prepend_first c (some (a, b)) = some (String.◌∷◌ c a, b)

-- The text before the first separator and the text after it; `none` where there is none.
unfoldable pub cut : ℕ → String → Option (String × String)
cut sep String.[] = none
cut sep (String.◌∷◌ c s) =
    if eqb (code c) sep then some (String.[], s) else prepend_first c (cut sep s)

-- strings.SplitN(s, sep, n): at most n parts, the last one unsplit.
unfoldable pub split_n : ℕ → ℕ → String → List String
split_n sep zero s = []
split_n sep (suc zero) s = s ∷ []
split_n sep (suc (suc n)) s = elim (cut sep s) [
  | none ↦ s ∷ []
  | some (a, b) ↦ a ∷ split_n sep (suc n) b
]

abbrev extend_head : Char → List String → List String
extend_head c [] = String.◌∷◌ c String.[] ∷ []
extend_head c (p ∷ ps) = String.◌∷◌ c p ∷ ps

-- strings.Split and strings.SplitSeq
unfoldable pub split : ℕ → String → List String
split sep String.[] = String.[] ∷ []
split sep (String.◌∷◌ c s) =
    if eqb (code c) sep then String.[] ∷ split sep s else extend_head c (split sep s)

-- strings.Join
unfoldable pub join : String → List String → String
join sep [] = ""
join sep (p ∷ []) = p
join sep (p ∷ q ∷ ps) = p <> (sep <> join sep (q ∷ ps))

-- unicode.IsSpace
unfoldable pub is_space : ℕ → Bool
is_space c =
    (leb 9 c && leb c 13)
    || eqb c 32
    || eqb c 0x85
    || eqb c 0xA0
    || eqb c 0x1680
    || (leb 0x2000 c && leb c 0x200a)
    || eqb c 0x2028
    || eqb c 0x2029
    || eqb c 0x202f
    || eqb c 0x205f
    || eqb c 0x3000

unfoldable pub is_empty : String → Bool
is_empty String.[] = true
is_empty (String.◌∷◌ c s) = false

unfoldable pub trim_left : String → String
unfolding is_space
trim_left String.[] = String.[]
trim_left (String.◌∷◌ c s) =
    let rest = trim_left s in if is_space (code c) then rest else String.◌∷◌ c s

unfoldable pub trim_right : String → String
unfolding is_space is_empty
trim_right String.[] = String.[]
trim_right (String.◌∷◌ c s) =
    let rest = trim_right s in
    if is_space (code c) && is_empty rest then String.[] else String.◌∷◌ c rest

-- strings.TrimSpace
unfoldable pub trim_space : String → String
unfolding trim_left trim_right
trim_space s = trim_right (trim_left s)

abbrev pub codes : String → List ℕ
codes String.[] = []
codes (String.◌∷◌ c s) = code c ∷ codes s

-- unicode.ToLower, as far as its result can be an ASCII letter: A to Z, the Kelvin sign and the
-- dotted capital I. Any other code point has no ASCII letter for its lower case.
unfoldable pub to_lower : ℕ → ℕ
to_lower c =
    if leb 65 c && leb c 90
    then c + 32
    else if eqb c 0x212A
    then 107
    else if eqb c 0x130
    then 105
    else c

unfoldable pub starts_with : List ℕ → List ℕ → Bool
starts_with s [] = true
starts_with [] (p ∷ ps) = false
starts_with (c ∷ s) (p ∷ ps) = eqb c p && starts_with s ps

-- strings.Contains
unfoldable pub has_infix : List ℕ → List ℕ → Bool
unfolding starts_with
has_infix [] p = starts_with [] p
has_infix (c ∷ s) p = starts_with (c ∷ s) p || has_infix s p

-- strings.Contains(strings.ToLower(s), p) for a lower-case ASCII p
unfoldable pub contains_lowered : String → String → Bool
unfolding to_lower has_infix
contains_lowered s p = has_infix (map to_lower (codes s)) (codes p)

-- The character occurs in the text.
abbrev pub has_char : ℕ → String → Bool
has_char c String.[] = false
has_char c (String.◌∷◌ d s) = eqb (code d) c || has_char c s
