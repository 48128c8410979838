-- ===== src/Tests/ProjectParts.antt =====
-- The parts of reconcileProject on a small project.
use mathlib.Core.List.Perm
use sonarqube_operator.Prelude.{
  Char, code, String, ◌<>◌, ◌≡◌, ◌≢◌, refl, true, false, some, [], ◌∷◌, All, eqb,
}
use sonarqube_operator.Text.{has_char}
use sonarqube_operator.Exec.{sonar, Error, err, ok}
use sonarqube_operator.Project.Grants.{Grant, encode, decode, desired_grants, sort}
use sonarqube_operator.Project.Grants.RoundTrip.{decode-encode, decode-encode_colon}
use sonarqube_operator.Project.Permissions.{reconcile_project_permissions}
use sonarqube_operator.Project.Grants.Decoding.{Decodes, desired_grants-Decodes}
use sonarqube_operator.Project.MainBranch.{reconcile_main_branch}
use sonarqube_operator.Project.MainBranch.Condition.{Reported, reconcile_main_branch-Reported}
use sonarqube_operator.Sonar.{rename_main_branch}
use sonarqube_operator.Project.Permissions.Status.{
  with_managed, reconcile_project_permissions-status,
}
use sonarqube_operator.Project.Permissions.Ownership.{Owned, reconcile_project_permissions_owned}
use sonarqube_operator.Project.Links.{names, with_link_names, reconcile_project_links}
use sonarqube_operator.Project.Links.Ownership.{
  OwnedLinks, reconcile_project_links_owned, reconcile_project_links-status,
}
use sonarqube_operator.Tests.World.{world, creds, project, start, old_link, ui_link}

abbrev devs : Grant
devs = record { kind = "group"; subject = "devs"; permission = "scan" }

abbrev ldap : Grant
ldap = record { kind = "group"; subject = "ldap:devs"; permission = "scan" }

decode-encode_example : decode (encode devs) ≡ some devs
decode-encode_example = decode-encode devs refl refl

decode-encode_colon_example :
    (before : String) × (mark : Char) × (after : String) × ("ldap:devs"
      ≡ before <> String.◌∷◌ mark after)
    × (eqb (code mark) b':' ≡ true)
    × (has_char b':' before ≡ false)
    × (before ≢ "ldap:devs")
    × (decode (encode ldap)
        ≡ some (record { kind = "group"; subject = before; permission = after <> (":" <> "scan") }))
decode-encode_colon_example = decode-encode_colon ldap refl refl

reconcile_project_permissions_owned_example :
    All
      (Owned "shop" (desired_grants project.spec.permissions []) ("user:bob:admin" ∷ []))
      (reconcile_project_permissions creds (start project)).1.history
reconcile_project_permissions_owned_example =
    reconcile_project_permissions_owned world (λ s l. Perm.refl l) creds (start project) tt

reconcile_project_links_owned_example :
    All
      (OwnedLinks "shop" (old_link ∷ ui_link ∷ []) project.spec.links ("docs" ∷ []))
      (reconcile_project_links creds (start project)).1.history
reconcile_project_links_owned_example =
    reconcile_project_links_owned world creds (start project) (old_link ∷ ui_link ∷ []) 1 refl tt

reconcile_project_links-status_example :
    let r = reconcile_project_links creds (start project) in
    ((e : Error) → r.0 ≡ err e → r.1.object ≡ project)
    × (r.0 ≡ ok tt → r.1.object ≡ with_link_names (names project.spec.links) project)
reconcile_project_links-status_example = reconcile_project_links-status world creds (start project)

reconcile_project_permissions-status_example :
    let r = reconcile_project_permissions creds (start project) in
    ((e : Error) → r.0 ≡ err e → r.1.object ≡ project)
    × (r.0 ≡ ok tt
        → r.1.object ≡ with_managed (sort (desired_grants project.spec.permissions [])) project)
reconcile_project_permissions-status_example =
    reconcile_project_permissions-status world (λ s l. Perm.refl l) creds (start project)

desired_grants-Decodes_example : All Decodes (desired_grants project.spec.permissions [])
desired_grants-Decodes_example = desired_grants-Decodes project.spec.permissions

reconcile_main_branch-Reported_example :
    Reported creds project
      (ok "master")
      (world.answer (sonar creds (rename_main_branch "shop" "main")) 1).0
      (reconcile_main_branch creds (start project))
reconcile_main_branch-Reported_example = reconcile_main_branch-Reported creds (start project)
