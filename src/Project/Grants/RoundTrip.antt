-- ===== src/Project/Grants/RoundTrip.antt =====
-- Reading a grant back from its text.
use text.Mathlib.TextLemmas.{nil-append, cons-append, append_assoc}
use sonarqube_operator.Prelude.{
  ℕ, Char, code, String, ◌<>◌, ◌≡◌, ◌≢◌, refl, sym, ap, ◌∙◌, true, false, some, [], ◌∷◌, arith, eqb,
  Bool-cases, inl, inr,
}
use sonarqube_operator.Text.{cut, split_n, has_char}
use sonarqube_operator.Text.Split.{cut-append, split_n-some}
use sonarqube_operator.Project.Grants.{Grant, encode, decode}

abbrev colon : Char
colon = ":"

colon-append : (s : String) → ":" <> s ≡ String.◌∷◌ colon s
colon-append s = cons-append colon String.[] s ∙ ap (String.◌∷◌ colon) (nil-append s)

cut_colon : (a b : String) → has_char b':' a ≡ false → cut b':' (a <> (":" <> b)) ≡ some (a, b)
cut_colon a b h = rw colon-append (cut-append b':' colon a b refl h)

-- The first two parts have no colon, and the third is the rest.
split_three :
    (a b rest : String) (c : Char)
    → has_char b':' a ≡ false
    → has_char b':' b ≡ false
    → eqb (code c) b':' ≡ true
    → split_n b':' 3 (a <> (":" <> (b <> String.◌∷◌ c rest))) ≡ a ∷ b ∷ rest ∷ []
unfolding split_n
split_three a b rest c ha hb hc =
    split_n-some b':' 1 _ a _ (cut_colon a _ ha)
    ∙ ap (λ l. a ∷ l) (split_n-some b':' 0 _ b rest (cut-append b':' c b rest hc hb))

-- A grant whose kind and whose subject have no colon is read back as it was.
pub decode-encode :
    (g : Grant)
    → has_char b':' g.kind ≡ false
    → has_char b':' g.subject ≡ false
    → decode (encode g) ≡ some g
unfolding encode decode
decode-encode g k s =
    rw (colon-append g.permission, split_three g.kind g.subject g.permission colon k s refl)

-- A text with the character is cut at its first occurrence.
record FirstAt (sep : ℕ) (s : String) : Type 0 where
  before : String
  mark : Char
  after : String
  is_mark : eqb (code mark) sep ≡ true
  free : has_char sep before ≡ false
  whole : s ≡ before <> String.◌∷◌ mark after

first_at : (sep : ℕ) (s : String) → has_char sep s ≡ true → FirstAt sep s
first_at sep String.[] h = absurd (ground arith)
first_at sep (String.◌∷◌ c s) h = elim (Bool-cases (eqb (code c) sep)) [
  | inl here ↦ record {
    before = "";
    mark = c;
    after = s;
    is_mark = here;
    free = refl;
    whole = sym (nil-append (String.◌∷◌ c s));
  }
  | inr later ↦
      let r = first_at sep s (ground arith) in
      record {
        before = String.◌∷◌ c r.before;
        mark = r.mark;
        after = r.after;
        is_mark = r.is_mark;
        free = rw later r.free;
        whole = ap (String.◌∷◌ c) r.whole ∙ sym (cons-append c r.before _);
      }
]

-- A grant whose subject has a colon is read back as a grant to another subject: the part `before`
-- of the subject in front of its first colon; what follows that colon becomes part of the
-- permission.
pub decode-encode_colon :
    (g : Grant)
    → has_char b':' g.kind ≡ false
    → has_char b':' g.subject ≡ true
    → (before : String) × (mark : Char) × (after : String) × (g.subject
        ≡ before <> String.◌∷◌ mark after)
      × (eqb (code mark) b':' ≡ true)
      × (has_char b':' before ≡ false)
      × (before ≢ g.subject)
      × (decode (encode g)
          ≡ some (record {
            kind = g.kind;
            subject = before;
            permission = after <> (":" <> g.permission);
          }))
unfolding encode decode
decode-encode_colon g k s =
    let r = first_at b':' g.subject s in
    let apart : r.before ≢ g.subject = λ e. cc (ap (has_char b':') e, r.free) in
    let text : g.subject <> (":" <> g.permission)
        ≡ r.before <> String.◌∷◌ r.mark (r.after <> (":" <> g.permission)) =
      ap (λ t. t <> (":" <> g.permission)) r.whole
      ∙ append_assoc r.before (String.◌∷◌ r.mark r.after) _
      ∙ ap (λ t. r.before <> t) (cons-append r.mark r.after _) in
    let parts =
      split_three g.kind r.before (r.after <> (":" <> g.permission)) r.mark k r.free r.is_mark in
    (r.before, r.mark, r.after, r.whole, r.is_mark, r.free, apart, rw (text, parts))
