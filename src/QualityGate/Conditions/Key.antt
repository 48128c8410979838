-- ===== src/QualityGate/Conditions/Key.antt =====
-- Two conditions share a key only when they are the same condition.
use text.Mathlib.TextLemmas.{nil-append, cons-append}
use sonarqube_operator.Prelude.{Char, String, ◌<>◌, ◌≡◌, refl, sym, ap, ◌∙◌, false, some}
use sonarqube_operator.Text.{cut, has_char}
use sonarqube_operator.Text.Split.{cut-append}
use sonarqube_operator.QualityGate.Conditions.{condition_key}

abbrev bar : Char
bar = "|"

bar-append : (s : String) → "|" <> s ≡ String.◌∷◌ bar s
bar-append s = cons-append bar String.[] s ∙ ap (String.◌∷◌ bar) (nil-append s)

cut_bar : (a b : String) → has_char b'|' a ≡ false → cut b'|' (a <> ("|" <> b)) ≡ some (a, b)
cut_bar a b h = rw bar-append (cut-append b'|' bar a b refl h)

parts_of :
    (a b c d : String)
    → has_char b'|' a ≡ false
    → has_char b'|' c ≡ false
    → a <> ("|" <> b) ≡ c <> ("|" <> d)
    → (a ≡ c) × (b ≡ d)
parts_of a b c d ha hc e =
    let q : some (a, b) ≡ some (c, d) = sym (cut_bar a b ha) ∙ ap (cut b'|') e ∙ cut_bar c d hc in
    (cc q, cc q)

-- Where neither the metric nor the operator has a '|', the key determines the metric, the operator and
-- the threshold, whatever the threshold is.
pub condition_key_injective :
    (m n o p v w : String)
    → has_char b'|' m ≡ false
    → has_char b'|' n ≡ false
    → has_char b'|' o ≡ false
    → has_char b'|' p ≡ false
    → condition_key m o v ≡ condition_key n p w
    → (m ≡ n) × (o ≡ p) × (v ≡ w)
unfolding condition_key
condition_key_injective m n o p v w hm hn ho hp e =
    let (metric, rest) = parts_of m _ n _ hm hn e in
    let (op, value) = parts_of o v p w ho hp rest in (metric, op, value)
