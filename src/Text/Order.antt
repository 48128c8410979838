-- ===== src/Text/Order.antt =====
-- The order of Go on strings: lexicographic by character, which is the order of the UTF-8 bytes.
use Prim.Native.Nat.{compare as compare_ℕ}
use Prim.Native.String.{compare, then}
use Prim.Native.String.compare as clause
use text.Mathlib.Text.{is_le}
use text.Mathlib.TextEquality.{Char-path}
use mathlib.Core.Path.{ap₂}
use sonarqube_operator.Prelude.{Char, code, String, ◌≡◌, refl, Bool, true, false, arith}

abbrev pub text_le : String → String → Bool
text_le s t = is_le (compare s t)

not_le_nil : (c : Char) (s : String) → text_le (String.◌∷◌ c s) String.[] ≡ true → ⊥
not_le_nil c s h = let k : ◌≡◌ {A = Bool} false true = rw clause.cons-nil at h in cc

pub text_le_total : (s t : String) → text_le s t ≡ false → text_le t s ≡ true
text_le_total String.[] String.[] h = cc
text_le_total String.[] (String.◌∷◌ d t) h =
    let k : ◌≡◌ {A = Bool} true false = rw clause.nil-cons at h in cc
text_le_total (String.◌∷◌ c s) String.[] h = rw clause.nil-cons
text_le_total (String.◌∷◌ c s) (String.◌∷◌ d t) h =
    let k : is_le (then (compare_ℕ (code c) (code d)) (compare s t)) ≡ false =
      rw clause.cons-cons at h in
    rw clause.cons-cons (ground (arith, text_le_total s t))

pub text_le_trans : (s t u : String) → text_le s t ≡ true → text_le t u ≡ true → text_le s u ≡ true
text_le_trans String.[] t String.[] h k = refl
text_le_trans String.[] t (String.◌∷◌ e u) h k = rw clause.nil-cons
text_le_trans (String.◌∷◌ c s) String.[] u h k = absurd (not_le_nil c s h)
text_le_trans (String.◌∷◌ c s) (String.◌∷◌ d t) String.[] h k = absurd (not_le_nil d t k)
text_le_trans (String.◌∷◌ c s) (String.◌∷◌ d t) (String.◌∷◌ e u) h k =
    let h' : is_le (then (compare_ℕ (code c) (code d)) (compare s t)) ≡ true =
      rw clause.cons-cons at h in
    let k' : is_le (then (compare_ℕ (code d) (code e)) (compare t u)) ≡ true =
      rw clause.cons-cons at k in
    rw clause.cons-cons (ground (arith, text_le_trans s t u))

pub text_le_antisym : (s t : String) → text_le s t ≡ true → text_le t s ≡ true → s ≡ t
text_le_antisym String.[] String.[] h k = refl
text_le_antisym String.[] (String.◌∷◌ d t) h k = absurd (not_le_nil d t k)
text_le_antisym (String.◌∷◌ c s) String.[] h k = absurd (not_le_nil c s h)
text_le_antisym (String.◌∷◌ c s) (String.◌∷◌ d t) h k =
    let h' : is_le (then (compare_ℕ (code c) (code d)) (compare s t)) ≡ true =
      rw clause.cons-cons at h in
    let k' : is_le (then (compare_ℕ (code d) (code c)) (compare t s)) ≡ true =
      rw clause.cons-cons at k in
    ap₂ String.◌∷◌ (Char-path c d (ground arith))
      (text_le_antisym s t (ground arith) (ground arith))
