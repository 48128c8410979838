-- ===== src/HttpClient/Lookup.antt =====
-- What the client reports as found, and what as absent.
use sonarqube_operator.Prelude.{
  String, ◌≡◌, refl, true, false, List, [], ◌∷◌, All, ◌==◌, Bool-cases, inl, inr, eq_iff,
}
use sonarqube_operator.Sonar.{
  SonarCall, SonarReply, get_project, get_user, find_permission_template,
}
use sonarqube_operator.Exec.{Error, Result, ok, err, is_sonar_not_found}
use sonarqube_operator.HttpClient.Transport.{
  HttpClient, Transport, Parsed, parsed, malformed, into, and_then, replied,
}
use sonarqube_operator.HttpClient.Projects.{first_named}
use sonarqube_operator.HttpClient.Plain.{Plain}
use sonarqube_operator.HttpClient.Dispatch.{invoke}

-- The decoded list has no element of the name.
abbrev pub NoneNamed : {A : Type 0} → (A → String) → String → Parsed (List A) → Type 0
NoneNamed {A} name_of name p =
    (xs : List A) × (p ≡ parsed xs) × All (λ x. (name_of x == name) ≡ false) xs

first_named_absent :
    {A : Type 0} (name_of : A → String) (name : String) (x e : Error) (xs : List A)
    → first_named name_of name x xs ≡ err e
    → All (λ a. (name_of a == name) ≡ false) xs
unfolding first_named
first_named_absent name_of name x e [] f = tt
first_named_absent name_of name x e (a ∷ xs) f = elim (Bool-cases (name_of a == name)) [
  | inl same ↦ cc
  | inr apart ↦ (apart, first_named_absent name_of name x e xs (rw apart at f))
]

exact_head :
    {A : Type 0} (name_of : A → String) (name : String) (b a : A)
    → ok b ≡ ok a
    → (name_of b == name) ≡ true
    → name_of a ≡ name
exact_head name_of name b a e same =
    let q : name_of b ≡ name = (eq_iff (name_of b) name).0 same in cc

first_named_exact :
    {A : Type 0} (name_of : A → String) (name : String) (x : Error) (xs : List A) (a : A)
    → first_named name_of name x xs ≡ ok a
    → name_of a ≡ name
unfolding first_named
first_named_exact name_of name x [] a f = cc
first_named_exact name_of name x (b ∷ xs) a f = elim (Bool-cases (name_of b == name)) [
  | inl same ↦ exact_head name_of name b a (rw same at f) same
  | inr apart ↦ first_named_exact name_of name x xs a (rw apart at f)
]

pub Plain-absurd :
    {A : Type 0} (r : Result A) (e : Error) → r ≡ err e → is_sonar_not_found e ≡ true → Plain r → ⊥
Plain-absurd (ok a) e f n p = cc
Plain-absurd (err x) e f n p = cc

-- The name is looked up in the decoded body.
abbrev look_up :
    {A : Type 0}
    → (A → String)
    → String
    → Error
    → (String → Parsed (List A))
    → Result String
    → Result A
look_up name_of name x d r =
    and_then r (λ body. and_then (into (d body)) (first_named name_of name x))

module _ {A : Type 0} (name_of : A → String) (name : String) (x : Error)
    (d : String → Parsed (List A)) where
  decoded_absent :
      (p : Parsed (List A)) (e : Error)
      → and_then (into p) (first_named name_of name x) ≡ err e
      → is_sonar_not_found e ≡ true
      → NoneNamed name_of name p
  decoded_absent (parsed xs) e f n = (xs, refl, first_named_absent name_of name x e xs f)
  decoded_absent (malformed message) e f n = cc

  pub look_up_absent :
      (r : Result String) (e : Error)
      → Plain r
      → look_up name_of name x d r ≡ err e
      → is_sonar_not_found e ≡ true
      → (body : String) × (r ≡ ok body) × NoneNamed name_of name (d body)
  look_up_absent (ok body) e p f n = (body, refl, decoded_absent (d body) e f n)
  look_up_absent (err y) e p f n = cc

  decoded_exact :
      (p : Parsed (List A)) (a : A)
      → and_then (into p) (first_named name_of name x) ≡ ok a
      → name_of a ≡ name
  decoded_exact (parsed xs) a f = first_named_exact name_of name x xs a f
  decoded_exact (malformed message) a f = cc

  look_up_exact : (r : Result String) (a : A) → look_up name_of name x d r ≡ ok a → name_of a ≡ name
  look_up_exact (ok body) a f = decoded_exact (d body) a f
  look_up_exact (err y) a f = cc

-- What is returned has the name that was asked for.
abbrev pub Exact : (call : SonarCall) → SonarReply call → Type 0
Exact (get_project key) p = p.key ≡ key
Exact (get_user login) u = u.login ≡ login
Exact (find_permission_template name) t = t.name ≡ name
Exact _ a = Unit

module _ (T : Transport) (c : HttpClient) where
  -- Whichever project, user or permission template the client returns has the very key, login or
  -- name that was asked for, though SonarQube searches for parts of it.
  pub invoke-Exact :
      (call : SonarCall) (a : SonarReply call) (v : T.State)
      → (invoke T c call v).0 ≡ ok a
      → Exact call a
  unfolding invoke replied
  invoke-Exact (get_project key) a v f = look_up_exact (λ p. p.key) key _ T.decoders.projects _ a f
  invoke-Exact (get_user login) a v f = look_up_exact (λ u. u.login) login _ T.decoders.users _ a f
  invoke-Exact (find_permission_template name) a v f =
      look_up_exact (λ t. t.name) name _ T.decoders.templates _ a f
  invoke-Exact _ a v f = tt
