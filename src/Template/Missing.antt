-- ===== src/Template/Missing.antt =====
-- A permission template is created only where the lookup has just failed.
use sonarqube_operator.Prelude.{String, ◌≡◌, refl, false, not, [], ◌∷◌}
use sonarqube_operator.Sonar.{
  PermissionTemplate, find_permission_template, create_permission_template,
}
use sonarqube_operator.Api.Access.{Template}
use sonarqube_operator.Exec.{
  is_sonar_not_found, Env, template_kind, St, Credentials, sonar, called, Error, Result, ok, err,
}
use sonarqube_operator.Exec.Triple.{
  History, Triple, keep_rules, Triple-call, Triple-bind, Triple-at_object, Triple-if,
  Triple-raise_to, Triple-perform, Triple-attempt,
}
use sonarqube_operator.Controller.{warn}
use sonarqube_operator.Template.{created, looked_up, make_default, finish, reconcile_template}

-- The lookup of the name was just made, and failed.
abbrev pub NotFound : Credentials → String → History
NotFound c name [] = ⊥
NotFound c name (called (sonar d (find_permission_template n)) false ∷ h) = (d ≡ c) × (n ≡ name)
NotFound c name (_ ∷ h) = ⊥

-- Right before each creation of a template, the lookup of its name failed.
abbrev pub CreatedWhenMissing : History
CreatedWhenMissing [] = Unit
CreatedWhenMissing (called (sonar c (create_permission_template name _ _)) _ ∷ h) =
    NotFound c name h × CreatedWhenMissing h
CreatedWhenMissing (_ ∷ h) = CreatedWhenMissing h

module _ {E : Env} where
  created-Missing :
      (r : Result String)
      → Triple CreatedWhenMissing (created {E = E} r) CreatedWhenMissing CreatedWhenMissing
  unfolding created
  created-Missing (err e) = search keep_rules depth 9
  created-Missing (ok id) = search keep_rules depth 9

  warn-Missing :
      (reason : String) (r : Result (Unit {0}))
      → Triple CreatedWhenMissing
          (warn {E = E} {k = template_kind} reason r)
          CreatedWhenMissing
          CreatedWhenMissing
  unfolding warn
  warn-Missing reason (ok _) = search keep_rules
  warn-Missing reason (err e) = search keep_rules

  make_default-Missing :
      (c : Credentials)
      → Triple CreatedWhenMissing (make_default {E = E} c) CreatedWhenMissing CreatedWhenMissing
  unfolding make_default
  make_default-Missing c = search (keep_rules, warn-Missing) depth 9

  absent-Missing :
      (c : Credentials) (t : Template) (e : Error)
      → Triple
          (λ h. NotFound c t.spec.name h × CreatedWhenMissing h)
          (looked_up {E = E} c t (err e))
          CreatedWhenMissing
          CreatedWhenMissing
  unfolding looked_up
  absent-Missing c t e =
      Triple-if (not (is_sonar_not_found e)) _ _ (λ _. Triple-raise_to _ (λ h r. r.1))
        λ _.
          Triple-bind _ _
            (Triple-attempt _ (
              Triple-perform (sonar c (create_permission_template t.spec.name _ _)) (λ h r. r)
                (λ h r. r)))
            created-Missing

  present-Missing :
      (c : Credentials) (t : Template) (existing : PermissionTemplate)
      → Triple CreatedWhenMissing
          (looked_up {E = E} c t (ok existing))
          CreatedWhenMissing
          CreatedWhenMissing
  unfolding looked_up
  present-Missing c t existing = search keep_rules

  finish-Missing :
      (c : Credentials)
      → Triple CreatedWhenMissing (finish {E = E} c) CreatedWhenMissing CreatedWhenMissing
  unfolding finish
  finish-Missing c = search (keep_rules, make_default-Missing) depth 9

  -- A template is created only right behind a failed lookup of its name with the same
  -- credentials, if that held of the history before.
  pub reconcile_template-CreatedWhenMissing :
      (c : Credentials) (s : St E template_kind)
      → CreatedWhenMissing s.history
      → CreatedWhenMissing (reconcile_template c s).1.history
  unfolding reconcile_template
  reconcile_template-CreatedWhenMissing c s h =
      let t = s.object in
      Triple-at_object CreatedWhenMissing _ s
        (Triple-call {T = CreatedWhenMissing}
          {F = λ h. NotFound c t.spec.name h × CreatedWhenMissing h}
          (sonar c (find_permission_template t.spec.name)) _ (λ h r. r) (λ h r. ((refl, refl), r))
          (λ existing. Triple-bind _ _ (present-Missing c t existing) λ _. finish-Missing c)
          (λ e. Triple-bind _ _ (absent-Missing c t e) λ _. finish-Missing c))
        h
