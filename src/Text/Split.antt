-- ===== src/Text/Split.antt =====
-- Splitting a text that was put together, and putting together a text that was split.
use text.Mathlib.TextLemmas.{nil-append, cons-append}
use sonarqube_operator.Prelude.{
  ℕ, suc, Char, code, String, ◌<>◌, ◌≡◌, refl, true, false, none, some, [], ◌∷◌, arith, eqb,
}
use sonarqube_operator.Text.{cut, split_n, has_char}

-- A separator that does not occur in `a` is found right behind it.
pub cut-append :
    (sep : ℕ) (c : Char) (a b : String)
    → eqb (code c) sep ≡ true
    → has_char sep a ≡ false
    → cut sep (a <> String.◌∷◌ c b) ≡ some (a, b)
unfolding cut
cut-append sep c String.[] b at_sep free = rw (nil-append, at_sep)
cut-append sep c (String.◌∷◌ d a) b at_sep free =
    rw cons-append (ground (arith, cut-append sep c a b at_sep))

pub cut-none : (sep : ℕ) (a : String) → has_char sep a ≡ false → cut sep a ≡ none
unfolding cut
cut-none sep String.[] free = refl
cut-none sep (String.◌∷◌ d a) free = ground (arith, cut-none sep a)

pub split_n-some :
    (sep n : ℕ) (s a b : String)
    → cut sep s ≡ some (a, b)
    → split_n sep (suc (suc n)) s ≡ a ∷ split_n sep (suc n) b
unfolding split_n
split_n-some sep n s a b e = rw (e, split_n)

pub split_n-none :
    (sep n : ℕ) (s : String) → cut sep s ≡ none → split_n sep (suc (suc n)) s ≡ s ∷ []
unfolding split_n
split_n-none sep n s e = rw (e, split_n)
