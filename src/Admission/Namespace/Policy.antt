-- ===== src/Admission/Namespace/Policy.antt =====
-- Which references into another namespace are admitted.
use mathlib.Core.Path.{subst}
use sonarqube_operator.Prelude.{
  String, ◌≡◌, ◌≢◌, ◌↔◌, refl, sym, ◌∙◌, true, false, List, [], ◌∷◌, ◌==◌, eq_iff, inl, inr, ◌⊎◌,
  Bool-cases,
}
use sonarqube_operator.Text.{split, trim_space}
use sonarqube_operator.Api.{Instance, InstanceRef}
use sonarqube_operator.Exec.{
  Env, Kind, instance_kind, kube_get, St, Result, ok, err, ◌>>=◌, perform, lift, wrap_result,
}
use sonarqube_operator.Admission.Namespace.{
  allowed_from, target_key, some_entry, opted_in, validate_instance_ref_namespace,
}

-- An entry of the list is the caller, without regard to the white space around it.
abbrev pub Lists : (caller : String) → List String → Type 0
Lists caller [] = ⊥
Lists caller (entry ∷ rest) = (trim_space entry ≡ caller) ⊎ Lists caller rest

-- The value of the annotation lets the caller in.
abbrev pub Permits : (caller allowed : String) → Type 0
Permits caller allowed = (allowed ≡ "*") ⊎ ((allowed ≢ "") × Lists caller (split b',' allowed))

ne_of_eqb : (s t : String) → (s == t) ≡ false → s ≢ t
ne_of_eqb s t h e = (let c : true ≡ false = sym ((eq_iff s t).1 e) ∙ h in cc)

some_entry_iff :
    (caller : String) (es : List String) → (some_entry caller es ≡ true) ↔ Lists caller es
unfolding some_entry
some_entry_iff caller [] = ((λ e. cc), (λ h. elim h [ ]))
some_entry_iff caller (e ∷ rest) =
    let ih = some_entry_iff caller rest in
    let here = eq_iff (trim_space e) caller in
    elim (Bool-cases (trim_space e == caller)) [
      | inl y ↦ rw y ((λ _. inl (here.0 y)), (λ _. refl))
      | inr n ↦ rw n (
        (λ h. inr (ih.0 h)),
        (λ h. elim h [
          | inl p ↦ (let c : true ≡ false = sym (here.1 p) ∙ n in cc)
          | inr q ↦ ih.1 q
        ]),
      )
    ]

module _ {E : Env} {k : Kind} where
  opted_in_iff :
      (caller target : String) (ref : InstanceRef) (i : Instance) (s : St E k)
      → ((opted_in caller target ref i s).0 ≡ ok tt) ↔ Permits caller (allowed_from i)
  unfolding opted_in
  opted_in_iff caller target ref i s =
      let a = allowed_from i in
      let listed = some_entry_iff caller (split b',' a) in
      elim (Bool-cases (a == "")) [
        | inl empty ↦
            let e : a ≡ "" = (eq_iff a "").0 empty in
            rw empty (
              (λ h. cc),
              (λ h. elim h [
                | inl star ↦ (let c : ("" == "*") ≡ true = (eq_iff "" "*").1 (sym e ∙ star) in cc)
                | inr q ↦ absurd (q.0 e)
              ]),
            )
        | inr given ↦ elim (Bool-cases (a == "*")) [
          | inl star ↦ rw (given, star) ((λ h. inl ((eq_iff a "*").0 star)), (λ h. refl))
          | inr starless ↦ elim (Bool-cases (some_entry caller (split b',' a))) [
            | inl y ↦
                rw (given, starless, y)
                  ((λ h. inr ((λ e. ne_of_eqb a "" given e), listed.0 y)), (λ h. refl))
            | inr n ↦
                rw (given, starless, n)
                  (
                    (λ h. cc),
                    (λ h. elim h [
                      | inl e ↦ absurd (ne_of_eqb a "*" starless e)
                      | inr q ↦ (let c : true ≡ false = sym (listed.1 q.1) ∙ n in cc)
                    ]),
                  )
          ]
        ]
      ]

  after_read :
      (prefix caller : String) (ref : InstanceRef) (r : Result Instance) (s : St E k)
      → (((lift (wrap_result prefix r) >>= opted_in caller ref.namespace ref) s).0 ≡ ok tt)
        ↔ ((i : Instance) × (r ≡ ok i) × Permits caller (allowed_from i))
  unfolding ◌>>=◌
  after_read prefix caller ref (err e) s = ((λ h. cc), (λ h. cc (h.1)))
  after_read prefix caller ref (ok j) s =
      let decided = opted_in_iff caller ref.namespace ref j s in
      (
        (λ h. (j, refl, decided.0 h)),
        (λ h.
            let e : h.0 ≡ j = cc (h.1) in
            decided.1 (subst (λ (i : Instance). Permits caller (allowed_from i)) e h.2)),
      )

  -- A reference is admitted exactly when it stays in the caller's namespace (no namespace, or
  -- the caller's own), or when the target instance can be read and its annotation, with the white space
  -- trimmed, is "*" or has an entry that is the caller's namespace. Every error of the read is a refusal.
  pub validate_instance_ref_namespace_iff :
      (caller : String) (ref : InstanceRef) (s : St E k)
      → ((validate_instance_ref_namespace caller ref s).0 ≡ ok tt) ↔ (
          ((ref.namespace ≡ "") ⊎ (ref.namespace ≡ caller))
          ⊎ ((i : Instance) × ((E.answer (kube_get instance_kind (target_key ref)) s.server).0
                ≡ ok i)
              × Permits caller (allowed_from i)))
  unfolding validate_instance_ref_namespace perform ◌>>=◌
  validate_instance_ref_namespace_iff caller ref s = elim (Bool-cases (ref.namespace == "")) [
    | inl bare ↦ rw bare ((λ h. inl (inl ((eq_iff ref.namespace "").0 bare))), (λ h. refl))
    | inr named ↦ elim (Bool-cases (ref.namespace == caller)) [
      | inl own ↦
          rw (named, own) ((λ h. inl (inr ((eq_iff ref.namespace caller).0 own))), (λ h. refl))
      | inr foreign ↦
          let read =
            after_read _ caller ref (E.answer (kube_get instance_kind (target_key ref)) s.server).0
              _ in
          rw (named, foreign)
            (
              (λ h. inr (read.0 h)),
              (λ h. elim h [
                | inl (inl e) ↦ absurd (ne_of_eqb ref.namespace "" named e)
                | inl (inr e) ↦ absurd (ne_of_eqb ref.namespace caller foreign e)
                | inr q ↦ read.1 q
              ]),
            )
    ]
  ]
