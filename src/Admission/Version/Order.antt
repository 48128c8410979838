-- ===== src/Admission/Version/Order.antt =====
-- Which updates of spec.version are admitted.
use sonarqube_operator.Prelude.{
  String, ◌≡◌, ◌↔◌, refl, eqb_of_ne, sym, ap, ◌∙◌, Bool, true, false, Option, none, some, List, [],
  ◌∷◌, ◌==◌, arith, eq_iff, if◌then◌else◌, Bool-cases, ◌⊎◌, inl, inr, ◌<◌,
}
use sonarqube_operator.Text.{cut}
use sonarqube_operator.Exec.{Result, ok}
use sonarqube_operator.Admission.Version.{
  ℤ, pos, negsuc, lt_ℤ, eq_ℤ, is_lower, parse_major_minor, compare_versions,
  validate_version_not_downgraded,
}

-- The order of the integers, and that of versions by major and then by minor.
abbrev pub Less : ℤ → ℤ → Type 0
Less (pos a) (pos b) = a < b
Less (pos a) (negsuc b) = ⊥
Less (negsuc a) (pos b) = Unit
Less (negsuc a) (negsuc b) = b < a

abbrev pub Below : ℤ × ℤ → ℤ × ℤ → Type 0
Below (major, minor) (major', minor') = Less major major' ⊎ ((major ≡ major') × Less minor minor')

lt_ℤ_iff : (a b : ℤ) → (lt_ℤ a b ≡ true) ↔ Less a b
unfolding lt_ℤ
lt_ℤ_iff (pos a) (pos b) = ground arith
lt_ℤ_iff (pos a) (negsuc b) = ground arith
lt_ℤ_iff (negsuc a) (pos b) = ground arith
lt_ℤ_iff (negsuc a) (negsuc b) = ground arith

lt_ℤ_cotrans : (a b c : ℤ) → lt_ℤ a b ≡ false → lt_ℤ b c ≡ false → lt_ℤ a c ≡ false
unfolding lt_ℤ
lt_ℤ_cotrans (pos a) (pos b) (pos c) h k = ground arith
lt_ℤ_cotrans (pos a) (pos b) (negsuc c) h k = ground arith
lt_ℤ_cotrans (pos a) (negsuc b) (pos c) h k = ground arith
lt_ℤ_cotrans (pos a) (negsuc b) (negsuc c) h k = ground arith
lt_ℤ_cotrans (negsuc a) (pos b) (pos c) h k = ground arith
lt_ℤ_cotrans (negsuc a) (pos b) (negsuc c) h k = ground arith
lt_ℤ_cotrans (negsuc a) (negsuc b) (pos c) h k = ground arith
lt_ℤ_cotrans (negsuc a) (negsuc b) (negsuc c) h k = ground arith

eq_ℤ_iff : (a b : ℤ) → (eq_ℤ a b ≡ true) ↔ (a ≡ b)
unfolding eq_ℤ
eq_ℤ_iff (pos a) (pos b) = ground arith
eq_ℤ_iff (pos a) (negsuc b) = ground arith
eq_ℤ_iff (negsuc a) (pos b) = ground arith
eq_ℤ_iff (negsuc a) (negsuc b) = ground arith

lt_ℤ_total : (a b : ℤ) → lt_ℤ a b ≡ false → lt_ℤ b a ≡ false → a ≡ b
unfolding lt_ℤ
lt_ℤ_total (pos a) (pos b) h k = ground arith
lt_ℤ_total (pos a) (negsuc b) h k = ground arith
lt_ℤ_total (negsuc a) (pos b) h k = ground arith
lt_ℤ_total (negsuc a) (negsuc b) h k = ground arith

is_lower_cotrans :
    (u v w : ℤ × ℤ) → is_lower u v ≡ false → is_lower v w ≡ false → is_lower u w ≡ false
unfolding is_lower
is_lower_cotrans (a, b) (c, d) (e, f) h k = ground (
  arith,
  lt_ℤ_cotrans a c e,
  lt_ℤ_cotrans b d f,
  lt_ℤ_total a c,
  eq_ℤ_iff a c,
  eq_ℤ_iff a e,
  eq_ℤ_iff c e,
)

lt_ℤ_irrefl : (a : ℤ) → lt_ℤ a a ≡ false
unfolding lt_ℤ
lt_ℤ_irrefl (pos a) = ground arith
lt_ℤ_irrefl (negsuc a) = ground arith

is_lower_irrefl : (v : ℤ × ℤ) → is_lower v v ≡ false
unfolding is_lower
is_lower_irrefl (a, b) = ground (arith, lt_ℤ_irrefl a, lt_ℤ_irrefl b)

is_lower_iff : (u v : ℤ × ℤ) → (is_lower u v ≡ true) ↔ Below u v
unfolding is_lower
is_lower_iff (a, b) (c, d) = ground (arith, lt_ℤ_iff a c, lt_ℤ_iff b d, eq_ℤ_iff a c)

not_lower_iff : (u v : ℤ × ℤ) → (is_lower u v ≡ false) ↔ ¬ Below u v
not_lower_iff u v = ground (arith, is_lower_iff u v)

parse_empty : parse_major_minor "" ≡ none
unfolding parse_major_minor cut
parse_empty = refl

compared :
    (quote : String → String) (old new : String) (o n : ℤ × ℤ)
    → (compare_versions quote old new (some o) (some n) ≡ ok tt) ↔ (is_lower n o ≡ false)
unfolding compare_versions
compared quote old new o n = ground arith

-- The early return for equal texts changes nothing.
tested :
    (quote : String → String) (old new : String) (o n : ℤ × ℤ)
    → parse_major_minor old ≡ some o
    → parse_major_minor new ≡ some n
    → (validate_version_not_downgraded quote old new ≡ ok tt) ↔ (is_lower n o ≡ false)
unfolding validate_version_not_downgraded
tested quote old new o n po pn =
    let old_given : (old == "") ≡ false =
      eqb_of_ne old "" (λ e. cc (ap parse_major_minor e, parse_empty)) in
    let new_given : (new == "") ≡ false =
      eqb_of_ne new "" (λ e. cc (ap parse_major_minor e, parse_empty)) in
    elim (Bool-cases (old == new)) [
      | inl same ↦
          let q : some o ≡ some n = sym po ∙ ap parse_major_minor ((eq_iff old new).0 same) ∙ pn in
          let e : o ≡ n = cc q in
          rw (old_given, new_given, same) ((λ _. rw e (is_lower_irrefl n)), (λ _. refl))
      | inr apart ↦ rw (old_given, new_given, apart, po, pn) (compared quote old new o n)
    ]

-- Where both versions parse, the update is admitted exactly when the major and the minor of the new
-- one are not below those of the old one, in the order of the integers by major and then by minor;
-- what stands behind the minor plays no part.
pub validate_version_not_downgraded_iff :
    (quote : String → String) (old new : String) (o n : ℤ × ℤ)
    → parse_major_minor old ≡ some o
    → parse_major_minor new ≡ some n
    → (validate_version_not_downgraded quote old new ≡ ok tt) ↔ ¬ Below n o
validate_version_not_downgraded_iff quote old new o n po pn =
    let (into, back) = tested quote old new o n po pn in
    let (above, low) = not_lower_iff n o in (λ h. above (into h), λ h. back (low h))

-- Every update of the chain is admitted, and every version in it parses.
abbrev pub Admitted : (String → String) → String → List String → Type 0
Admitted quote v [] = Unit
Admitted quote v (w ∷ rest) =
    (validate_version_not_downgraded quote v w ≡ ok tt)
    × ((n : ℤ × ℤ) × (parse_major_minor w ≡ some n))
    × Admitted quote w rest

abbrev pub last : String → List String → String
last v [] = v
last v (w ∷ rest) = last w rest

chain_tested :
    (quote : String → String) (v : String) (rest : List String) (a z : ℤ × ℤ)
    → parse_major_minor v ≡ some a
    → Admitted quote v rest
    → parse_major_minor (last v rest) ≡ some z
    → is_lower z a ≡ false
chain_tested quote v [] a z pa chain pz =
    let q : some z ≡ some a = sym pz ∙ pa in let e : z ≡ a = cc q in rw e (is_lower_irrefl a)
chain_tested quote v (w ∷ rest) a z pa (step, (n, pn), chain) pz =
    is_lower_cotrans z n a (chain_tested quote w rest n z pn chain pz)
      ((tested quote v w a n pa pn).0 step)

-- However many admitted updates follow one another, the major and the minor at the end are not
-- below those at the start, in the order of the integers by major and then by minor, as long as
-- each version on the way parses.
pub Admitted-last :
    (quote : String → String) (v : String) (rest : List String) (a z : ℤ × ℤ)
    → parse_major_minor v ≡ some a
    → Admitted quote v rest
    → parse_major_minor (last v rest) ≡ some z
    → ¬ Below z a
Admitted-last quote v rest a z pa chain pz =
    (not_lower_iff z a).0 (chain_tested quote v rest a z pa chain pz)

to_unparsed :
    (quote : String → String) (old new : String) (o : Option (ℤ × ℤ))
    → compare_versions quote old new o none ≡ ok tt
unfolding compare_versions
to_unparsed quote old new none = refl
to_unparsed quote old new (some o) = refl

from_unparsed :
    (quote : String → String) (old new : String) (n : Option (ℤ × ℤ))
    → compare_versions quote old new none n ≡ ok tt
unfolding compare_versions
from_unparsed quote old new none = refl
from_unparsed quote old new (some n) = refl

either_way : (b : Bool) (r : Result (Unit {0})) → r ≡ ok tt → (if b then ok tt else r) ≡ ok tt
either_way true r e = refl
either_way false r e = e

-- A version that does not parse is admitted both as the new and as the old one, so that in two
-- updates any version can follow any other.
pub validate_version_not_downgraded_unparsed :
    (quote : String → String) (old mid new : String)
    → parse_major_minor mid ≡ none
    → (validate_version_not_downgraded quote old mid ≡ ok tt)
      × (validate_version_not_downgraded quote mid new ≡ ok tt)
unfolding validate_version_not_downgraded
validate_version_not_downgraded_unparsed quote old mid new pm =
    let first : compare_versions quote old mid (parse_major_minor old) (parse_major_minor mid)
        ≡ ok tt =
      rw pm (to_unparsed quote old mid (parse_major_minor old)) in
    let second : compare_versions quote mid new (parse_major_minor mid) (parse_major_minor new)
        ≡ ok tt =
      rw pm (from_unparsed quote mid new (parse_major_minor new)) in
    (either_way _ _ first, either_way _ _ second)
