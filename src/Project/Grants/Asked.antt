-- ===== src/Project/Grants/Asked.antt =====
-- The set of grants that a specification asks for, in whatever order and however often it lists them.
use mathlib.Core.List.{Mem, Memᴰ, Nodup, Nodup-nil, Nodup-cons, perm_ext_iff_of_Nodup}
use mathlib.Core.Bool.{Bool-set}
use mathlib.Core.Logic.{∥∥₁_elim}
use sonarqube_operator.Prelude.{
  String, ◌≡◌, refl, sym, ap, ◌∙◌, Bool, true, false, ◌||◌, List, [], ◌∷◌, ◌++◌, map, ◌==◌, eq_iff,
  contains, Bool-cases, inl, inr, arith,
}
use sonarqube_operator.Api.{ProjectPermission}
use sonarqube_operator.Project.Grants.{encode, grant, insert, insert_all, desired_grants, sort}
use sonarqube_operator.Project.Grants.Sorted.{sort-Perm}

-- Each grant of the specification in its text form, repeated as there.
abbrev pub asked_grants : List ProjectPermission → List String
asked_grants [] = []
asked_grants (p ∷ rest) =
    map (λ permission. encode (grant p permission)) p.permissions ++ asked_grants rest

-- No text twice.
abbrev Unique : List String → Type 0
Unique [] = Unit
Unique (x ∷ xs) = (contains xs x ≡ false) × Unique xs

contains-append :
    (xs ys : List String) (k : String) → contains (xs ++ ys) k ≡ (contains xs k || contains ys k)
contains-append [] ys k = refl
contains-append (x ∷ xs) ys k = let rest = contains-append xs ys k in ground arith

insert-contains :
    (x : String) (keys : List String) (k : String)
    → contains (insert x keys) k ≡ (contains keys k || (x == k))
unfolding insert
insert-contains x keys k = elim (Bool-cases (contains keys x)) [
  | inl there ↦ rw there (elim (Bool-cases (x == k)) [
    | inl same ↦
        let here : contains keys k ≡ true =
          ap (contains keys) (sym ((eq_iff x k).0 same)) ∙ there in
        ground arith
    | inr apart ↦ ground arith
  ])
  | inr new ↦ rw new (let e = contains-append keys (x ∷ []) k in ground arith)
]

apart_sym : (s t : String) → (s == t) ≡ false → (t == s) ≡ false
apart_sym s t apart = elim (Bool-cases (t == s)) [
  | inl same ↦ let e = (eq_iff s t).1 (sym ((eq_iff t s).0 same)) in cc
  | inr done ↦ done
]

or_false : (a b : Bool) → (a || b) ≡ false → (a ≡ false) × (b ≡ false)
or_false a b e = ground arith

Unique-append :
    (xs : List String) (k : String) → Unique xs → contains xs k ≡ false → Unique (xs ++ (k ∷ []))
Unique-append [] k u new = (refl, tt)
Unique-append (x ∷ xs) k (first, rest) new =
    let e = contains-append xs (k ∷ []) x in
    let (apart, new') = or_false (x == k) (contains xs k) new in
    let apart' = apart_sym x k apart in (rw (e, first, apart') refl, Unique-append xs k rest new')

insert-Unique : (x : String) (keys : List String) → Unique keys → Unique (insert x keys)
unfolding insert
insert-Unique x keys u = elim (Bool-cases (contains keys x)) [
  | inl there ↦ rw there u
  | inr new ↦ rw new (Unique-append keys x u new)
]

insert_all-Unique :
    (p : ProjectPermission) (permissions keys : List String)
    → Unique keys
    → Unique (insert_all p permissions keys)
unfolding insert_all
insert_all-Unique p [] keys u = u
insert_all-Unique p (permission ∷ rest) keys u =
    insert_all-Unique p rest _ (insert-Unique (encode (grant p permission)) keys u)

desired_grants-Unique :
    (ps : List ProjectPermission) (keys : List String)
    → Unique keys
    → Unique (desired_grants ps keys)
unfolding desired_grants
desired_grants-Unique [] keys u = u
desired_grants-Unique (p ∷ rest) keys u =
    desired_grants-Unique rest _ (insert_all-Unique p p.permissions keys u)

or_assoc : (a b c : Bool) → ((a || b) || c) ≡ (a || (b || c))
or_assoc a b c = ground arith

insert_all-contains :
    (p : ProjectPermission) (permissions keys : List String) (k : String)
    → contains (insert_all p permissions keys) k
      ≡ (contains keys k || contains (map (λ q. encode (grant p q)) permissions) k)
unfolding insert_all
insert_all-contains p [] keys k = ground arith
insert_all-contains p (permission ∷ rest) keys k =
    let key = encode (grant p permission) in
    insert_all-contains p rest (insert key keys) k
    ∙ ap (λ b. b || contains (map (λ q. encode (grant p q)) rest) k) (insert-contains key keys k)
    ∙ or_assoc (contains keys k) (key == k) (contains (map (λ q. encode (grant p q)) rest) k)

desired_grants-contains :
    (ps : List ProjectPermission) (keys : List String) (k : String)
    → contains (desired_grants ps keys) k ≡ (contains keys k || contains (asked_grants ps) k)
unfolding desired_grants
desired_grants-contains [] keys k = ground arith
desired_grants-contains (p ∷ rest) keys k =
    let first = map (λ q. encode (grant p q)) p.permissions in
    desired_grants-contains rest (insert_all p p.permissions keys) k
    ∙ ap (λ b. b || contains (asked_grants rest) k) (insert_all-contains p p.permissions keys k)
    ∙ or_assoc (contains keys k) (contains first k) (contains (asked_grants rest) k)
    ∙ ap (λ b. contains keys k || b) (sym (contains-append first (asked_grants rest) k))

contains_Memᴰ : (xs : List String) (k : String) → Memᴰ k xs → contains xs k ≡ true
contains_Memᴰ [] k m = elim m [ ]
contains_Memᴰ (x ∷ xs) k (Memᴰ.head e) =
    let q : (x == k) ≡ true = (eq_iff x k).1 (sym e) in ground arith
contains_Memᴰ (x ∷ xs) k (Memᴰ.tail m) = let q = contains_Memᴰ xs k m in ground arith

Memᴰ_contains : (xs : List String) (k : String) → contains xs k ≡ true → Memᴰ k xs
Memᴰ_contains [] k e = cc
Memᴰ_contains (x ∷ xs) k e = elim (Bool-cases (x == k)) [
  | inl same ↦ Memᴰ.head (sym ((eq_iff x k).0 same))
  | inr apart ↦ Memᴰ.tail (Memᴰ_contains xs k (rw apart at e))
]

contains-Mem : (xs : List String) (k : String) → Mem k xs → contains xs k ≡ true
contains-Mem xs k m = ∥∥₁_elim m (Bool-set _ _) (contains_Memᴰ xs k)

Unique-Nodup : (xs : List String) → Unique xs → Nodup xs
Unique-Nodup [] u = Nodup-nil
Unique-Nodup (x ∷ xs) (first, rest) =
    Nodup-cons.1 (λ m. (let e = contains-Mem xs x m in cc), Unique-Nodup xs rest)

-- Specifications that ask for the same grants have the same sorted list of them, however they are
-- ordered, split or repeated.
pub sort-desired_grants :
    (ps qs : List ProjectPermission)
    → ((k : String) → contains (asked_grants ps) k ≡ contains (asked_grants qs) k)
    → sort (desired_grants ps []) ≡ sort (desired_grants qs [])
sort-desired_grants ps qs same =
    let equal : (k : String)
        → contains (desired_grants ps []) k ≡ contains (desired_grants qs []) k =
      λ k. desired_grants-contains ps [] k ∙ same k ∙ sym (desired_grants-contains qs [] k) in
    sort-Perm (
      (perm_ext_iff_of_Nodup (Unique-Nodup _ (desired_grants-Unique ps [] tt))
          (Unique-Nodup _ (desired_grants-Unique qs [] tt))).1
        (λ k. (
          λ m. ∣ Memᴰ_contains (desired_grants qs []) k (sym (equal k) ∙ contains-Mem _ k m) ∣₁,
          λ m. ∣ Memᴰ_contains (desired_grants ps []) k (equal k ∙ contains-Mem _ k m) ∣₁,
        )))
