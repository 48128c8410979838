-- ===== src/Project/Links.antt =====
-- reconcileProjectLinks
pub mod Ownership
use sonarqube_operator.Prelude.{
  String, ◌<>◌, Bool, true, false, Option, none, some, List, [], ◌∷◌, map, ◌==◌, contains,
  if◌then◌else◌,
}
use sonarqube_operator.Api.{Project, SpecLink}
use sonarqube_operator.Sonar.{
  ProjectLink, list_project_links, delete_project_link, create_project_link,
}
use sonarqube_operator.Exec.{
  Env, project_kind, Exec, Credentials, sonar, pure, wrap, ◌>>=◌, ◌>>◌, perform, object, modify,
}

-- currentByName[name]: a later link takes the place of an earlier one of the same name.
unfoldable pub link_named : String → List ProjectLink → Option ProjectLink
link_named name [] = none
link_named name (l ∷ rest) = elim (link_named name rest) [
  | some later ↦ some later
  | none ↦ if l.name == name then some l else none
]

abbrev pub names : List SpecLink → List String
names = map (λ l. l.name)

abbrev pub with_link_names : List String → Project → Project
with_link_names names p = record p { status = record p.status { managed_link_names = names } }

module _ {E : Env} (c : Credentials) where
  delete_found : String → Option ProjectLink → Exec E project_kind (Unit {0})
  delete_found name none = pure tt
  delete_found name (some l) =
      wrap ("deleting link " <> E.quote name) (perform (sonar c (delete_project_link l.id)))

  -- Deletes the managed links that the specification no longer names.
  unfoldable pub delete_links :
      (current : List ProjectLink) (desired managed : List String) → Exec E project_kind (Unit {0})
  unfolding delete_found
  delete_links current desired [] = pure tt
  delete_links current desired (name ∷ managed) =
      let rest = delete_links current desired managed in
      if contains desired name then rest else (do delete_found name (link_named name current); rest)

  create_missing : (key : String) → SpecLink → Option ProjectLink → Exec E project_kind (Unit {0})
  create_missing key l (some _) = pure tt
  create_missing key l none = do
    wrap ("creating link " <> E.quote l.name)
        (perform (sonar c (create_project_link key l.name l.url)))
    pure tt

  -- Creates the links of the specification whose name is not there yet.
  unfoldable pub create_links :
      (key : String) (current : List ProjectLink) (links : List SpecLink)
      → Exec E project_kind (Unit {0})
  unfolding create_missing
  create_links key current [] = pure tt
  create_links key current (l ∷ links) = do
    create_missing key l (link_named l.name current)
    create_links key current links

  unfoldable pub reconcile_project_links : Exec E project_kind (Unit {0})
  reconcile_project_links = do
    p ← object
    current ← wrap "listing project links" (perform (sonar c (list_project_links p.spec.key)))
    delete_links current (names p.spec.links) p.status.managed_link_names
    create_links p.spec.key current p.spec.links
    modify (with_link_names (names p.spec.links))
