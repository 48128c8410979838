-- ===== src/Project/Grants/Sorted.antt =====
-- The sorted list of grants does not depend on the order in which Go walks the map.
use mathlib.Core.List
use mathlib.Core.List.{Perm, Permᴰ}
use mathlib.Core.HLevel.{hedberg}
use mathlib.Core.Logic.{∥∥₁_elim}
use mathlib.Core.Path.{ap₂}
use sonarqube_operator.Prelude.{
  String, ◌≡◌, refl, sym, ap, ◌∙◌, true, false, List, [], ◌∷◌, ◌==◌, eq_iff, Bool-cases, inl, inr,
}
use sonarqube_operator.Text.Order.{text_le, text_le_total, text_le_trans, text_le_antisym}
use sonarqube_operator.Project.Grants.{insert_sorted, sort}

insert_before :
    (x z : String) (l : List String) → text_le x z ≡ true → insert_sorted x (z ∷ l) ≡ x ∷ z ∷ l
unfolding insert_sorted
insert_before x z l h = rw h refl

insert_behind :
    (x z : String) (l : List String)
    → text_le x z ≡ false
    → insert_sorted x (z ∷ l) ≡ z ∷ insert_sorted x l
unfolding insert_sorted
insert_behind x z l h = rw h refl

-- A text that is not below the head goes behind it.
past_head :
    (x y z : String) (l : List String)
    → text_le x y ≡ true
    → text_le x z ≡ true
    → insert_sorted y (x ∷ z ∷ l) ≡ x ∷ insert_sorted y (z ∷ l)
past_head x y z l h g = elim (Bool-cases (text_le y x)) [
  | inl k ↦
      let e : x ≡ y = text_le_antisym x y h k in
      let yz : text_le y z ≡ true = ap (λ t. text_le t z) (sym e) ∙ g in
      insert_before y x (z ∷ l) k
      ∙ ap₂ (λ a b. a ∷ b ∷ z ∷ l) (sym e) e
      ∙ ap (λ r. x ∷ r) (sym (insert_before y z l yz))
  | inr k ↦ insert_behind y x (z ∷ l) k
]

swap_le :
    (x y : String) (l : List String)
    → text_le x y ≡ true
    → insert_sorted x (insert_sorted y l) ≡ insert_sorted y (insert_sorted x l)
swap_le x y [] h = elim (Bool-cases (text_le y x)) [
  | inl k ↦
      let e : x ≡ y = text_le_antisym x y h k in
      ap₂ (λ a b. insert_sorted a (insert_sorted b [])) e (sym e)
  | inr k ↦ unfold insert_sorted in rw (h, k) refl
]
swap_le x y (z ∷ l) h = elim (Bool-cases (text_le y z)) [
  | inl k ↦
      let g : text_le x z ≡ true = text_le_trans x y z h k in
      ap (insert_sorted x) (insert_before y z l k)
      ∙ insert_before x y (z ∷ l) h
      ∙ ap (λ r. x ∷ r) (sym (insert_before y z l k))
      ∙ sym (past_head x y z l h g)
      ∙ ap (insert_sorted y) (sym (insert_before x z l g))
  | inr k ↦ elim (Bool-cases (text_le x z)) [
    | inl g ↦
        ap (insert_sorted x) (insert_behind y z l k)
        ∙ insert_before x z (insert_sorted y l) g
        ∙ ap (λ r. x ∷ r) (sym (insert_behind y z l k))
        ∙ sym (past_head x y z l h g)
        ∙ ap (insert_sorted y) (sym (insert_before x z l g))
    | inr g ↦
        ap (insert_sorted x) (insert_behind y z l k)
        ∙ insert_behind x z (insert_sorted y l) g
        ∙ ap (λ r. z ∷ r) (swap_le x y l h)
        ∙ sym (insert_behind y z (insert_sorted x l) k)
        ∙ ap (insert_sorted y) (sym (insert_behind x z l g))
  ]
]

swap :
    (x y : String) (l : List String)
    → insert_sorted x (insert_sorted y l) ≡ insert_sorted y (insert_sorted x l)
swap x y l = elim (Bool-cases (text_le x y)) [
  | inl h ↦ swap_le x y l h
  | inr h ↦ sym (swap_le y x l (text_le_total x y h))
]

sort-Permᴰ : {xs ys : List String} → Permᴰ xs ys → sort xs ≡ sort ys
unfolding sort
sort-Permᴰ Permᴰ.nil = refl
sort-Permᴰ (Permᴰ.cons e p) = ap₂ insert_sorted e (sort-Permᴰ p)
sort-Permᴰ (Permᴰ.swap {a = a} {b = b} {l = l} e f) = rw (← e, ← f) (swap a b (sort l))
sort-Permᴰ (Permᴰ.trans p q) = sort-Permᴰ p ∙ sort-Permᴰ q

String_dec : (s t : String) → Dec (s ≡ t)
String_dec s t = elim (Bool-cases (s == t)) [
  | inl same ↦ yes ((eq_iff s t).0 same)
  | inr apart ↦ no (λ e. (let c : true ≡ false = sym ((eq_iff s t).1 e) ∙ apart in cc))
]

-- Lists with the same entries, each as often, are sorted to the same list.
pub sort-Perm : {xs ys : List String} → Perm xs ys → sort xs ≡ sort ys
sort-Perm p = ∥∥₁_elim p (List.is_set (hedberg String_dec) _ _) (λ d. sort-Permᴰ d)
