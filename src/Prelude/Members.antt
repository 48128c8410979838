-- ===== src/Prelude/Members.antt =====
-- Lemmas on lists of texts that are read as sets.
use mathlib.Core.Path.{◌≡◌, refl, ap, ◌∙◌, ap₂, subst}
use mathlib.Core.Bool.{true, false, ◌||◌, Bool-set}
use mathlib.Core.List.{List, [], ◌∷◌, ◌++◌, map, Perm, Permᴰ}
use mathlib.Core.Logic.{◌≢◌, ∥∥₁_elim, inl, inr}
use native.Mathlib.Omega.{arith}
use Prim.Native.String.{String}
use text.Mathlib.Text.{◌==◌}
use text.Mathlib.TextEquality.{eq_iff}
use sonarqube_operator.Prelude.Tests.{All, Member, contains, Bool-cases}

pub All_mono {ℓ κ κ'} :
    {A : Type ℓ} {P : A → Type κ} {Q : A → Type κ'} (xs : List A)
    → ((a : A) → P a → Q a)
    → All P xs
    → All Q xs
All_mono [] f h = tt
All_mono (x ∷ xs) f h = (f x h.0, All_mono xs f h.1)

pub All-append {ℓ κ} :
    {A : Type ℓ} (P : A → Type κ) (xs ys : List A) → All P xs → All P ys → All P (xs ++ ys)
All-append P [] ys h k = k
All-append P (x ∷ xs) ys h k = (h.0, All-append P xs ys h.1 k)

-- Every entry of a list is contained in it.
pub contains_self : (xs : List String) → All (λ k. contains xs k ≡ true) xs
contains_self [] = tt
contains_self (x ∷ xs) =
    (ground (arith, eq_iff x x), All_mono xs (λ k h. ground arith) (contains_self xs))

pub All-contains {κ} :
    (P : String → Type κ) (xs : List String) (k : String) → All P xs → contains xs k ≡ true → P k
All-contains P [] k h m = absurd (ground arith)
All-contains P (x ∷ xs) k h m = elim (Bool-cases (x == k)) [
  | inl same ↦ subst P ((eq_iff x k).0 same) h.0
  | inr apart ↦ All-contains P xs k h.1 (rw apart at m)
]

contains-Permᴰ : (k : String) {xs ys : List String} → Permᴰ xs ys → contains xs k ≡ contains ys k
contains-Permᴰ k Permᴰ.nil = refl
contains-Permᴰ k (Permᴰ.cons e p) = ap₂ (λ a b. a == k || b) e (contains-Permᴰ k p)
contains-Permᴰ k (Permᴰ.swap {a = a} {b = b} {l = l} e f) = rw (← e, ← f) (ground arith)
contains-Permᴰ k (Permᴰ.trans p q) = contains-Permᴰ k p ∙ contains-Permᴰ k q

-- A permutation has the same entries.
pub contains-Perm : (k : String) {xs ys : List String} → Perm xs ys → contains xs k ≡ contains ys k
contains-Perm k p = ∥∥₁_elim p (Bool-set _ _) (λ d. contains-Permᴰ k d)

pub eqb_of_ne : (s t : String) → s ≢ t → (s == t) ≡ false
eqb_of_ne s t h = ground (arith, eq_iff s t)

pub All-Member : {A : Type 0} (xs : List A) → All (λ x. Member x xs) xs
All-Member [] = tt
All-Member (x ∷ xs) = (inl refl, All_mono xs (λ y m. inr m) (All-Member xs))

pub All_at {κ} : {A : Type 0} (P : A → Type κ) (xs : List A) (a : A) → All P xs → Member a xs → P a
All_at P [] a h m = elim m [ ]
All_at P (x ∷ xs) a h (inl e) = subst P e h.0
All_at P (x ∷ xs) a h (inr m) = All_at P xs a h.1 m

pub All_of {κ} :
    {A : Type 0} (P : A → Type κ) (xs : List A) → ((a : A) → Member a xs → P a) → All P xs
All_of P [] f = tt
All_of P (x ∷ xs) f = (f x (inl refl), All_of P xs (λ a m. f a (inr m)))

module _ {A : Type 0} (f : A → String) where
  -- A key is among the keys of a list exactly when an element has it.
  pub contains-map :
      (xs : List A) (k : String) → contains (map f xs) k ≡ true → (x : A) × Member x xs × (f x ≡ k)
  contains-map [] k h = cc
  contains-map (x ∷ xs) k h = elim (Bool-cases (f x == k)) [
    | inl same ↦ (x, inl refl, (eq_iff (f x) k).0 same)
    | inr apart ↦ let (y, m, e) = contains-map xs k (rw apart at h) in (y, inr m, e)
  ]

  pub Member-contains :
      (xs : List A) (x : A) (k : String) → Member x xs → f x ≡ k → contains (map f xs) k ≡ true
  Member-contains [] x k m same = elim m [ ]
  Member-contains (y ∷ xs) x k (inl e) same =
      let q : (f y == k) ≡ true = (eq_iff (f y) k).1 (ap f e ∙ same) in ground arith
  Member-contains (y ∷ xs) x k (inr m) same = let q = Member-contains xs x k m same in ground arith
