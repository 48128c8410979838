-- ===== src/User/Groups/Server.antt =====
-- The groups of one user as SonarQube keeps them.
use sonarqube_operator.Prelude.{String, ◌≡◌, Bool, true, not, ◌&&◌, ◌||◌, ◌==◌, List, contains}
use sonarqube_operator.Sonar.{get_user_groups, add_user_to_group, remove_user_from_group}
use sonarqube_operator.Exec.{Env, Credentials, sonar, ok}

-- Whether the user is in a group, and what the three calls say of it and do to it. Groups and
-- memberships of other users play no part.
pub record GroupServer (E : Env) (c : Credentials) (login : String) : Type 0 where
  pub member : E.State → String → Bool
  -- The client reads one page: what it lists the user is in, and the user may be in more.
  pub listed :
      (groups : List String) (v t : E.State) (k : String)
      → E.answer (sonar c (get_user_groups login)) v ≡ (ok groups, t)
      → (contains groups k ≡ true → member v k ≡ true) × (member t k ≡ member v k)
  pub added :
      (g : String) (v t : E.State) (k : String)
      → E.answer (sonar c (add_user_to_group login g)) v ≡ (ok tt, t)
      → member t k ≡ (member v k || (g == k))
  pub removed :
      (g : String) (v t : E.State) (k : String)
      → E.answer (sonar c (remove_user_from_group login g)) v ≡ (ok tt, t)
      → member t k ≡ (member v k && not (g == k))
