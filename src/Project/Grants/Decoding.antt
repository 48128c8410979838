-- ===== src/Project/Grants/Decoding.antt =====
-- Every grant that a specification asks for can be read back.
use sonarqube_operator.Prelude.{
  String, ◌<>◌, ◌≡◌, refl, false, some, List, [], ◌∷◌, ◌==◌, contains, All, All-append, Bool-cases,
  inl, inr,
}
use sonarqube_operator.Text.{has_char}
use sonarqube_operator.Api.{ProjectPermission}
use sonarqube_operator.Project.Grants.{
  Grant, grant, encode, decode, insert, insert_all, desired_grants,
}
use sonarqube_operator.Project.Grants.RoundTrip.{decode-encode, decode-encode_colon}

-- The key has the three parts that the code takes out of it.
abbrev pub Decodes : String → Type 0
Decodes key = (g : Grant) × (decode key ≡ some g)

encode-Decodes : (g : Grant) → has_char b':' g.kind ≡ false → Decodes (encode g)
encode-Decodes g plain = elim (Bool-cases (has_char b':' g.subject)) [
  | inl colon ↦
      (let (before, mark, after, whole, at, free, apart, read) =
          decode-encode_colon g plain colon in
        (
          record { kind = g.kind; subject = before; permission = after <> (":" <> g.permission) },
          read,
        ))
  | inr free ↦ (g, decode-encode g plain free)
]

grant_kind :
    (p : ProjectPermission) (permission : String) → has_char b':' (grant p permission).kind ≡ false
unfolding grant
grant_kind p permission = elim (Bool-cases (p.group == "")) [
  | inl e ↦ rw e refl
  | inr e ↦ rw e refl
]

insert-Decodes :
    (key : String) (keys : List String)
    → Decodes key
    → All Decodes keys
    → All Decodes (insert key keys)
unfolding insert
insert-Decodes key keys d h = elim (Bool-cases (contains keys key)) [
  | inl e ↦ rw e h
  | inr e ↦ rw e (All-append Decodes keys (key ∷ []) h (d, tt))
]

insert_all-Decodes :
    (p : ProjectPermission) (permissions keys : List String)
    → All Decodes keys
    → All Decodes (insert_all p permissions keys)
unfolding insert_all
insert_all-Decodes p [] keys h = h
insert_all-Decodes p (permission ∷ rest) keys h =
    insert_all-Decodes p rest (insert (encode (grant p permission)) keys)
      (insert-Decodes _ keys (encode-Decodes (grant p permission) (grant_kind p permission)) h)

desired-Decodes :
    (ps : List ProjectPermission) (keys : List String)
    → All Decodes keys
    → All Decodes (desired_grants ps keys)
unfolding desired_grants
desired-Decodes [] keys h = h
desired-Decodes (p ∷ rest) keys h =
    desired-Decodes rest (insert_all p p.permissions keys)
      (insert_all-Decodes p p.permissions keys h)

-- Whatever the names of the users, groups and permissions of the specification are, every key of the
-- desired set splits into three parts, so that taking the parts out of it does not panic.
pub desired_grants-Decodes : (ps : List ProjectPermission) → All Decodes (desired_grants ps [])
desired_grants-Decodes ps = desired-Decodes ps [] tt
