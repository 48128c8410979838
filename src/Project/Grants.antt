-- ===== src/Project/Grants.antt =====
-- The text form of a permission grant, "user:<login>:<permission>" or "group:<name>:<permission>",
-- and the set of grants that a specification asks for (in reconcileProjectPermissions).
pub mod RoundTrip
pub mod Sorted
pub mod Decoding
pub mod Asked
use Prim.Native.String.{compare}
use text.Mathlib.Text.{is_le}
use sonarqube_operator.Prelude.{
  String, ◌<>◌, Bool, Option, none, some, List, [], ◌∷◌, ◌++◌, ◌==◌, contains, if◌then◌else◌,
}
use sonarqube_operator.Text.{split_n}
use sonarqube_operator.Api.{ProjectPermission}

pub record Grant : Type 0 where
  pub kind : String
  pub subject : String
  pub permission : String

-- kind + ":" + subject + ":" + perm
unfoldable pub encode : Grant → String
encode g = g.kind <> (":" <> (g.subject <> (":" <> g.permission)))

grant_of : List String → Option Grant
grant_of (k ∷ s ∷ p ∷ []) = some (record { kind = k; subject = s; permission = p })
grant_of _ = none

-- strings.SplitN(key, ":", 3); `none` where that has other than three parts.
unfoldable pub decode : String → Option Grant
unfolding grant_of split_n
decode key = grant_of (split_n b':' 3 key)

-- A group takes the place of a user.
unfoldable pub grant : ProjectPermission → String → Grant
grant p permission =
    if p.group == ""
    then record { kind = "user"; subject = p.user; permission = permission }
    else record { kind = "group"; subject = p.group; permission = permission }

-- desired[key] = true
unfoldable pub insert : String → List String → List String
insert key keys = if contains keys key then keys else keys ++ (key ∷ [])

unfoldable pub insert_all : ProjectPermission → List String → List String → List String
unfolding insert encode grant
insert_all p [] keys = keys
insert_all p (permission ∷ rest) keys =
    insert_all p rest (insert (encode (grant p permission)) keys)

unfoldable pub desired_grants : List ProjectPermission → List String → List String
unfolding insert_all
desired_grants [] keys = keys
desired_grants (p ∷ rest) keys = desired_grants rest (insert_all p p.permissions keys)

unfoldable pub insert_sorted : String → List String → List String
insert_sorted x [] = x ∷ []
insert_sorted x (y ∷ ys) =
    let rest = insert_sorted x ys in if is_le (compare x y) then x ∷ y ∷ ys else y ∷ rest

-- sort.Strings: the order on texts is total, so the sorted list does not depend on the algorithm.
unfoldable pub sort : List String → List String
unfolding insert_sorted
sort [] = []
sort (x ∷ xs) = insert_sorted x (sort xs)
