-- ===== src/Controller/Deletion.antt =====
-- How the frame of the controllers lets a deleted object go.
use sonarqube_operator.Prelude.{Bool, String, ◌≡◌, true, false, ◌⊎◌, ◌∷◌}
use sonarqube_operator.Api.{NamespacedName, Instance}
use sonarqube_operator.Exec.{
  Env, Kind, instance_kind, Obj, St, Exec, Credentials, bearer, kube_get, called, Error, Result, ok,
  err, pure, ◌>>◌, is_not_found,
}
use sonarqube_operator.Controller.{
  CtrlResult, Handlers, instance_name, instance_api_url, get_instance_admin_token, done,
}
use sonarqube_operator.Controller.Release.{Released}

module _ {E : Env} {k : Kind} (finalizer : String) (clean : Credentials → Exec E k (Unit {0})) where
  -- The clean-up runs, with the token that was read.
  abbrev Cleans : Instance → St E k → Result (Unit {0}) × St E k → Type 0
  Cleans i s run =
      (token : String) × (i.status.phase ≡ "Ready")
      × ((get_instance_admin_token i s).0 ≡ ok token)
      × (run ≡ clean (bearer (instance_api_url i) token) (get_instance_admin_token i s).1)

module _ {E : Env} {k : Kind} (h : Handlers E k) (clean : Credentials → Exec E k (Unit {0}))
    (s : St E k) where
  abbrev Run : Type 0
  Run = Result CtrlResult × St E k

  -- The read of the instance failed, and the run ends with its error and no further call.
  abbrev pub Stuck : Result Instance → Run → Type 0
  Stuck r run = (e : Error) × (r ≡ err e) × (is_not_found e ≡ false) × (run ≡ (err e, s))

  -- The instance is Ready and its token was read: the run is the clean-up.
  abbrev pub Cleaned : Result Instance → Run → Type 0
  Cleaned r run =
      (i : Instance) × (token : String) × (r ≡ ok i)
      × (i.status.phase ≡ "Ready")
      × ((get_instance_admin_token i s).0 ≡ ok token)
      × (run
          ≡ (clean (bearer (instance_api_url i) token) >> pure done)
              (get_instance_admin_token i s).1)

  abbrev pub Ends : Result Instance → Run → Type 0
  Ends r run = Released h.finalizer s.object run ⊎ (Stuck r run ⊎ Cleaned r run)

module _ {E : Env} {k : Kind} (h : Handlers E k) (request : NamespacedName) (s : St E k) where
  -- The state behind the reads of the object and of its instance.
  abbrev pub reads : Obj k → Bool → E.State → St E k
  reads o found u = record {
    server = u;
    object = o;
    history =
        called (kube_get instance_kind (instance_name h o)) found
        ∷ called (kube_get k request) true
        ∷ s.history;
  }
