-- ===== src/Admission/Version.antt =====
-- validateVersionNotDowngraded and parseMajorMinor (api/v1alpha1/sonarqubeinstance_webhook.go),
-- with strconv.Atoi for a 64-bit int.
pub mod Order
use sonarqube_operator.Prelude.{
  ℕ, zero, suc, ◌+◌, ◌-◌, ◌*◌, ◌^◌, Char, code, String, ◌<>◌, Bool, true, false, ◌&&◌, ◌||◌, Option,
  none, some, List, [], ◌∷◌, ◌==◌, eqb, leb, ltb, if◌then◌else◌,
}
use sonarqube_operator.Text.{split_n}
use sonarqube_operator.Exec.{Result, ok, err}
use sonarqube_operator.Controller.{new_error}

-- `negsuc n` is -(n + 1).
pub data ℤ : Type 0 where
  pos : ℕ → ℤ
  negsuc : ℕ → ℤ

unfoldable pub lt_ℤ : ℤ → ℤ → Bool
lt_ℤ (pos a) (pos b) = ltb a b
lt_ℤ (pos a) (negsuc b) = false
lt_ℤ (negsuc a) (pos b) = true
lt_ℤ (negsuc a) (negsuc b) = ltb b a

unfoldable pub eq_ℤ : ℤ → ℤ → Bool
eq_ℤ (pos a) (pos b) = eqb a b
eq_ℤ (pos a) (negsuc b) = false
eq_ℤ (negsuc a) (pos b) = false
eq_ℤ (negsuc a) (negsuc b) = eqb a b

abbrev is_digit : ℕ → Bool
is_digit c = leb b'0' c && leb c b'9'

-- The value of decimal digits behind those that were read; `none` at any other character.
unfoldable pub digits : ℕ → String → Option ℕ
digits n String.[] = some n
digits n (String.◌∷◌ c s) =
    let rest = digits (n * 10 + (code c - b'0')) s in if is_digit (code c) then rest else none

unsigned : String → Option ℕ
unfolding digits
unsigned String.[] = none
unsigned (String.◌∷◌ c s) = digits 0 (String.◌∷◌ c s)

positive : Option ℕ → Option ℤ
positive none = none
positive (some n) = if ltb n (2 ^ 63) then some (pos n) else none

negative : Option ℕ → Option ℤ
negative none = none
negative (some zero) = some (pos 0)
negative (some (suc n)) = if ltb n (2 ^ 63) then some (negsuc n) else none

-- strconv.Atoi: an optional sign and at least one digit, within the range of int64.
unfoldable pub atoi : String → Option ℤ
unfolding unsigned positive negative
atoi String.[] = none
atoi (String.◌∷◌ c s) =
    if eqb (code c) b'-'
    then negative (unsigned s)
    else if eqb (code c) b'+'
    then positive (unsigned s)
    else positive (unsigned (String.◌∷◌ c s))

abbrev both_numbers : Option ℤ → Option ℤ → Option (ℤ × ℤ)
both_numbers (some a) (some b) = some (a, b)
both_numbers _ _ = none

of_parts : List String → Option (ℤ × ℤ)
unfolding atoi
of_parts (a ∷ b ∷ _) = both_numbers (atoi a) (atoi b)
of_parts _ = none

-- `none` stands for the error, which the caller does not look into.
unfoldable pub parse_major_minor : String → Option (ℤ × ℤ)
unfolding of_parts split_n
parse_major_minor version = of_parts (split_n b'.' 3 version)

unfoldable pub is_lower : ℤ × ℤ → ℤ × ℤ → Bool
is_lower (a, b) (c, d) = lt_ℤ a c || (eq_ℤ a c && lt_ℤ b d)

module _ (quote : String → String) where
  compare_versions : (old new : String) → Option (ℤ × ℤ) → Option (ℤ × ℤ) → Result (Unit {0})
  compare_versions old new (some o) (some n) =
      if is_lower n o
      then err (
          new_error
            ("spec.version cannot be downgraded from " <> (quote old <> (" to " <> quote new))))
      else ok tt
  compare_versions old new _ _ = ok tt

  unfoldable pub validate_version_not_downgraded : (old new : String) → Result (Unit {0})
  unfolding compare_versions
  validate_version_not_downgraded old new =
      if old == "" || new == "" || old == new
      then ok tt
      else compare_versions old new (parse_major_minor old) (parse_major_minor new)
