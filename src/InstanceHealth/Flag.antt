-- ===== src/InstanceHealth/Flag.antt =====
-- What settling an instance does to the flag that asks for a restart, where the store and SonarQube
-- behave as a FlagServer.
use sonarqube_operator.Prelude.{String, ◌≡◌, refl, sym, ap, ◌∙◌, Bool, true, false}
use sonarqube_operator.Api.{NamespacedName, Instance}
use sonarqube_operator.Sonar.{restart}
use sonarqube_operator.Exec.{
  Env, instance_kind, St, kube_get, secret_kind, bearer, sonar, Result, ok, err, ◌>>=◌, ◌>>◌,
  perform, emit,
}
use sonarqube_operator.Controller.{get_instance_admin_token}
use sonarqube_operator.Controller.Token.{
  get_instance_admin_token-SameObject, get_instance_admin_token-Kept,
}
use sonarqube_operator.InstanceHealth.{
  progressing, restarted, try_restart, restart_or_ready, settle,
}
use sonarqube_operator.Restart.Server.{FlagServer, Same, restarting}

module _ {E : Env} (F : FlagServer E) where
  -- The run leaves the stored flag and the version of the object in memory alone, and the flag of
  -- the object as well while a change of the plugins waits.
  pub record Careful (v : E.State) (o : Instance) (s : St E instance_kind) : Type 0 where
    pub flag : F.flag s.server ≡ F.flag v
    pub version : F.version s.server ≡ F.version v
    pub waits : F.waiting s.server ≡ true → F.waiting v ≡ true
    pub revision : s.object.meta ≡ o.meta
    pub asked :
        F.waiting s.server ≡ true → s.object.status.restart_required ≡ o.status.restart_required

  -- After the restart, whether or not SonarQube took it.
  restarted-Careful :
      (url token reason message : String) (r : Result (Unit {0})) (v : E.State)
      (s : St E instance_kind)
      → E.answer (sonar (bearer url token) restart) v ≡ (r, s.server)
      → Careful v s.object ((restarted r >> progressing reason message) s).1
  unfolding restarted progressing emit ◌>>=◌
  restarted-Careful url token reason message (ok _) v s e =
      let (f, n) = F.sonar_stored (bearer url token) restart v restarting in
      let done = F.restarts (bearer url token) v s.server e in
      record {
        flag = sym (ap (λ a. F.flag a.1) e) ∙ f;
        version = sym (ap (λ a. F.version a.1) e) ∙ n;
        waits = λ w. cc;
        revision = refl;
        asked = λ w. cc;
      }
  restarted-Careful url token reason message (err x) v s e =
      let (f, n) = F.sonar_stored (bearer url token) restart v restarting in
      record {
        flag = sym (ap (λ a. F.flag a.1) e) ∙ f;
        version = sym (ap (λ a. F.version a.1) e) ∙ n;
        waits = F.restart_failed (bearer url token) v s.server x e;
        revision = refl;
        asked = λ w. refl;
      }

  untouched :
      (v : E.State) (o : Instance) (s : St E instance_kind)
      → Same F v s.server
      → s.object.meta ≡ o.meta
      → s.object.status.restart_required ≡ o.status.restart_required
      → Careful v o s
  untouched v o s same m r = record {
    flag = same.flag;
    version = same.version;
    waits = λ w. sym same.waiting ∙ w;
    revision = m;
    asked = λ w. r;
  }

  after-Same :
      (v u : E.State) (o o' : Instance) (s : St E instance_kind)
      → Same F v u
      → o' ≡ o
      → Careful u o' s
      → Careful v o s
  after-Same v u o o' s same e careful = record {
    flag = careful.flag ∙ same.flag;
    version = careful.version ∙ same.version;
    waits = λ w. sym same.waiting ∙ careful.waits w;
    revision = careful.revision ∙ ap (λ i. i.meta) e;
    asked = λ w. careful.asked w ∙ ap (λ i. i.status.restart_required) e;
  }

  read_keeps :
      (u : E.State) (name : NamespacedName) (v : E.State)
      → Same F u v
      → Same F u (E.answer (kube_get secret_kind name) v).1
  read_keeps u name v same =
      let (f, n, w) =
        F.read_same secret_kind name v (E.answer (kube_get secret_kind name) v).1
          (E.answer (kube_get secret_kind name) v).0 refl in
      record { flag = f ∙ same.flag; version = n ∙ same.version; waiting = w ∙ same.waiting }

  try_restart-Careful :
      (url reason message : String) (r : Result String) (s : St E instance_kind)
      → Careful s.server s.object ((try_restart url r >> progressing reason message) s).1
  unfolding try_restart progressing perform ◌>>=◌
  try_restart-Careful url reason message (err e) s =
      untouched s.server s.object _ (record { flag = refl; version = refl; waiting = refl }) refl
        refl
  try_restart-Careful url reason message (ok token) s =
      restarted-Careful url token reason message
        (E.answer (sonar (bearer url token) restart) s.server).0 s.server _ refl

  restart_or_ready-Careful :
      (url : String) (b : Bool) (s : St E instance_kind)
      → Careful s.server s.object (restart_or_ready url s.object b s).1
  unfolding restart_or_ready emit ◌>>=◌
  restart_or_ready-Careful url true s =
      let token = get_instance_admin_token s.object s in
      let same =
        (get_instance_admin_token-Kept {P = Same F s.server} s.object (read_keeps s.server)).at s
          (record { flag = refl; version = refl; waiting = refl }) in
      after-Same s.server token.1.server s.object token.1.object _ same
        ((get_instance_admin_token-SameObject s.object).at s)
        (try_restart-Careful url "Restarting" "SonarQube restarting to activate plugin changes"
          token.0 token.1)
  restart_or_ready-Careful url false s =
      untouched s.server s.object _ (record { flag = refl; version = refl; waiting = refl }) refl
        refl

  pub settle-Careful :
      (url : String) (s : St E instance_kind) → Careful s.server s.object (settle url s).1
  unfolding settle ◌>>=◌
  settle-Careful url s = restart_or_ready-Careful url s.object.status.restart_required s
