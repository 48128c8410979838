-- ===== src/Project/Links/Ownership.antt =====
-- Which links reconcileProjectLinks deletes and creates, and what it writes to the status.
use sonarqube_operator.Prelude.{
  String, ◌<>◌, ◌≡◌, refl, ap, ◌∙◌, true, false, Option, none, some, List, [], ◌∷◌, eq_iff, arith,
  contains, All, contains_self, Member, All-Member,
}
use sonarqube_operator.Api.{SpecLink}
use sonarqube_operator.Sonar.{
  SonarCall, ProjectLink, list_project_links, delete_project_link, create_project_link,
}
use sonarqube_operator.Exec.{
  Env, project_kind, St, Credentials, sonar, Action, called, Error, ok, err, ◌>>=◌, perform,
}
use sonarqube_operator.Exec.Rules.{Logs, Logs-pure, Logs-if, Logs-bind, Logs-wrapped, Logs-modify}
use sonarqube_operator.Exec.Object.{
  SameObject, SameObject-pure, SameObject-if, SameObject-bind, SameObject-wrapped, Commits-bind,
  Commits-modify, Commits-at_object,
}
use sonarqube_operator.Project.Links.{
  link_named, with_link_names, names, delete_found, create_missing, delete_links, create_links,
  reconcile_project_links,
}

-- The link that a name stands for has that name.
link_named-name :
    (n : String) (ls : List ProjectLink) (l : ProjectLink) → link_named n ls ≡ some l → l.name ≡ n
unfolding link_named
link_named-name n [] l h = cc
link_named-name n (m ∷ ls) l h = ground (arith, link_named-name n ls l, eq_iff m.name n)

module _ (key : String) (current : List ProjectLink) (links : List SpecLink)
    (managed : List String) where
  abbrev OwnedLink : SonarCall → Type 0
  OwnedLink (list_project_links k) = k ≡ key
  OwnedLink (delete_project_link id) =
      (l : ProjectLink) × (l.id ≡ id)
      × (contains managed l.name ≡ true)
      × (contains (names links) l.name ≡ false)
      × (link_named l.name current ≡ some l)
  OwnedLink (create_project_link k name url) =
      (k ≡ key)
      × ((l : SpecLink) × Member l links × (l.name ≡ name) × (l.url ≡ url))
      × (link_named name current ≡ none)
  OwnedLink _ = ⊥

  abbrev pub OwnedLinks : Action → Type 0
  OwnedLinks (called (sonar _ c) _) = OwnedLink c
  OwnedLinks _ = ⊥

  module _ {E : Env} (c : Credentials) where
    delete_found-Logs :
        (name : String) (o : Option ProjectLink)
        → contains managed name ≡ true
        → contains (names links) name ≡ false
        → link_named name current ≡ o
        → Logs OwnedLinks (delete_found {E = E} c name o)
    unfolding delete_found
    delete_found-Logs name none m d e = Logs-pure tt
    delete_found-Logs name (some l) m d e =
        let same : l.name ≡ name = link_named-name name current l e in
        Logs-wrapped _ (sonar c (delete_project_link l.id))
          (λ b. (l, refl, rw same m, rw same d, ap (λ n. link_named n current) same ∙ e))

    delete_links-Logs :
        (rest : List String)
        → All (λ k. contains managed k ≡ true) rest
        → Logs OwnedLinks (delete_links {E = E} c current (names links) rest)
    unfolding delete_links
    delete_links-Logs [] h = Logs-pure tt
    delete_links-Logs (name ∷ rest) h =
        Logs-if (contains (names links) name) _ _ (λ _. delete_links-Logs rest h.1)
          (λ d.
            Logs-bind (delete_found c name (link_named name current)) _
              (delete_found-Logs name (link_named name current) h.0 d refl)
              (λ _. delete_links-Logs rest h.1))

    delete_found-SameObject :
        (name : String) (o : Option ProjectLink) → SameObject (delete_found {E = E} c name o)
    unfolding delete_found
    delete_found-SameObject name none = SameObject-pure tt
    delete_found-SameObject name (some l) =
        SameObject-wrapped _ (sonar c (delete_project_link l.id))

    create_missing-SameObject :
        (l : SpecLink) (o : Option ProjectLink) → SameObject (create_missing {E = E} c key l o)
    unfolding create_missing
    create_missing-SameObject l (some _) = SameObject-pure tt
    create_missing-SameObject l none =
        SameObject-bind _ _
          (SameObject-wrapped ("creating link " <> E.quote l.name)
            (sonar c (create_project_link key l.name l.url)))
          (λ _. SameObject-pure tt)

    create_missing-Logs :
        (l : SpecLink) (o : Option ProjectLink)
        → Member l links
        → link_named l.name current ≡ o
        → Logs OwnedLinks (create_missing {E = E} c key l o)
    unfolding create_missing
    create_missing-Logs l (some _) d e = Logs-pure tt
    create_missing-Logs l none d e =
        Logs-bind _ _
          (Logs-wrapped ("creating link " <> E.quote l.name)
            (sonar c (create_project_link key l.name l.url)) (λ b. (refl, (l, d, refl, refl), e)))
          (λ _. Logs-pure tt)

    create_links-Logs :
        (rest : List SpecLink)
        → All (λ l. Member l links) rest
        → Logs OwnedLinks (create_links {E = E} c key current rest)
    unfolding create_links
    create_links-Logs [] h = Logs-pure tt
    create_links-Logs (l ∷ rest) h =
        Logs-bind (create_missing c key l (link_named l.name current)) _
          (create_missing-Logs l (link_named l.name current) h.0 refl)
          (λ _. create_links-Logs rest h.1)

    delete_links-SameObject :
        (rest : List String) → SameObject (delete_links {E = E} c current (names links) rest)
    unfolding delete_links
    delete_links-SameObject [] = SameObject-pure tt
    delete_links-SameObject (name ∷ rest) =
        SameObject-if (contains (names links) name) _ _ (delete_links-SameObject rest) (
          SameObject-bind (delete_found c name (link_named name current)) _
            (delete_found-SameObject name (link_named name current))
            (λ _. delete_links-SameObject rest))

    create_links-SameObject :
        (rest : List SpecLink) → SameObject (create_links {E = E} c key current rest)
    unfolding create_links
    create_links-SameObject [] = SameObject-pure tt
    create_links-SameObject (l ∷ rest) =
        SameObject-bind (create_missing c key l (link_named l.name current)) _
          (create_missing-SameObject l (link_named l.name current))
          (λ _. create_links-SameObject rest)

-- After the answer `current` to the listing, only these calls follow: the deletion of a link that
-- `current` holds, whose name the status lists and the specification does not; and the
-- creation, under the project's key, of a link of the specification, with its name and its URL, whose
-- name `current` lacks.
pub reconcile_project_links_owned :
    (E : Env) (c : Credentials) (s : St E project_kind) (current : List ProjectLink) (t : E.State)
    → let p = s.object in
      let P = OwnedLinks p.spec.key current p.spec.links p.status.managed_link_names in
      E.answer (sonar c (list_project_links p.spec.key)) s.server ≡ (ok current, t)
      → All P s.history
      → All P (reconcile_project_links c s).1.history
unfolding reconcile_project_links ◌>>=◌ perform
reconcile_project_links_owned E c s current t listed h =
    let p = s.object in
    let managed : List String = p.status.managed_link_names in
    let key = p.spec.key in
    rw listed (
      (Logs-bind (delete_links c current (names p.spec.links) managed) _
          (delete_links-Logs key current p.spec.links managed c managed (contains_self managed))
          (λ _.
            Logs-bind (create_links c key current p.spec.links) _
              (create_links-Logs key current p.spec.links managed c p.spec.links
                (All-Member p.spec.links))
              (λ _. Logs-modify _))).at
        _ (refl, h))

-- When the reconciliation of the links fails, the object in memory is as before, and so the status
-- lists the names that it listed; when it succeeds, the status lists the names of the
-- specification, and nothing else in the object has changed.
pub reconcile_project_links-status :
    (E : Env) (c : Credentials) (s : St E project_kind)
    → let r = reconcile_project_links c s in
      let p = s.object in
      ((e : Error) → r.0 ≡ err e → r.1.object ≡ p)
      × (r.0 ≡ ok tt → r.1.object ≡ with_link_names (names p.spec.links) p)
unfolding reconcile_project_links
reconcile_project_links-status E c s =
    let p = s.object in
    let managed = p.status.managed_link_names in
    Commits-at_object {f = with_link_names (names p.spec.links)} _ s (
      Commits-bind _ _
        (SameObject-wrapped "listing project links" (sonar c (list_project_links p.spec.key)))
        (λ current.
          Commits-bind (delete_links c current (names p.spec.links) managed) _
            (delete_links-SameObject p.spec.key current p.spec.links managed c managed)
            (λ _.
              Commits-bind (create_links c p.spec.key current p.spec.links) _
                (create_links-SameObject p.spec.key current p.spec.links managed c p.spec.links)
                (λ _. Commits-modify))))
