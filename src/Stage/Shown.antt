-- ===== src/Stage/Shown.antt =====
-- About a look for a staged script in src/stage.c.
use susanin.Prelude.{
  ◌≡◌, refl, ◌∙◌, true, false, List, [], ◌∷◌, ◌++◌, Option, none, some, All, Option-cases, inl, inr,
  arith, if◌then◌else◌,
}
use susanin.Prelude.Int.{is_neg}
use susanin.Prelude.Text.{Text}
use susanin.Ros.Sentence.{Sentence}
use susanin.Ros.Command.{is_trap, is_done}
use susanin.Ros.Command.Success.{feed}
use susanin.Ros.Session.{Router, Session}
use susanin.Ros.Session.Calls.{received, ros_command-Complete}
use susanin.Stage.{StageObj, no_object, object_of, lookup_scan_cb, lookup_words, lookup_name_exact}

-- The last object under the name that some replies show.
unfoldable pub last_object : Text → List Sentence → Option StageObj
last_object name [] = none
last_object name (s ∷ ss) = elim (last_object name ss) [ some o ↦ some o | none ↦ object_of name s ]

-- A look from `s`: replies without a trap up to `!done`, in which `o` is the last object under the name.
pub record Looked {R : Router} (name : Text) (s : Session R) (o : Option StageObj) : Type 0 where
  pub before : List Sentence
  pub last : Sentence
  pub left : List Sentence
  pub splits : received s lookup_words ≡ before ++ (last ∷ left)
  pub quiet : All (λ st. is_trap st ≡ false) before
  pub ends : is_done last ≡ true
  pub shows : last_object name (before ++ (last ∷ [])) ≡ o

object_of-found :
    (name : Text) (s : Sentence) (o : StageObj) → object_of name s ≡ some o → o.found ≡ true
unfolding object_of
object_of-found name s o h = ground arith

last_object-found :
    (name : Text) (ss : List Sentence) (o : StageObj)
    → last_object name ss ≡ some o
    → o.found ≡ true
unfolding last_object
last_object-found name [] o h = ground arith
last_object-found name (s ∷ ss) o h = elim (Option-cases (last_object name ss)) [
  | inl e ↦ object_of-found name s o (rw (e, last_object) at h)
  | inr (p, e) ↦ last_object-found name ss o (e ∙ rw (e, last_object) at h)
]

-- The callback keeps the last object.
feed-last_object :
    (name : Text) (ss : List Sentence) (out : StageObj)
    → feed (lookup_scan_cb name) ss out ≡ (elim (last_object name ss) [ none ↦ out | some o ↦ o ])
unfolding last_object lookup_scan_cb
feed-last_object name [] out = refl
feed-last_object name (s ∷ ss) out =
    let next = (lookup_scan_cb name s out).1 in
    let rest = feed-last_object name ss next in
    elim (Option-cases (last_object name ss)) [
      | inl e ↦ rw (e, last_object) (rw e at rest)
      | inr (p, e) ↦ rw (e, last_object) (rw e at rest)
    ]

last_object-feed :
    (name : Text) (ss : List Sentence) (o : StageObj)
    → o ≡ feed (lookup_scan_cb name) ss no_object
    → last_object name ss ≡ (if o.found then some o else none)
last_object-feed name ss o h =
    let kept = h ∙ feed-last_object name ss no_object in
    elim (Option-cases (last_object name ss)) [
      | inl e ↦ let empty : o ≡ no_object = rw e at kept in e ∙ rw empty refl
      | inr (p, e) ↦
          let same : o ≡ p = rw e at kept in
          let found : p.found ≡ true = last_object-found name ss p e in e ∙ rw same (rw found refl)
    ]

module _ {R : Router} (s : Session R) (name : Text) where
  -- A look that does not fail returns the last object under the name, if there is one.
  pub lookup_name_exact-Looked :
      is_neg (lookup_name_exact s name).0 ≡ false
      → Looked name s
          (if (lookup_name_exact s name).1.found then some (lookup_name_exact s name).1 else none)
  unfolding lookup_name_exact lookup_scan_cb
  lookup_name_exact-Looked h =
      let cb = lookup_scan_cb name in
      let call = lookup_name_exact s name in
      let (left, c) =
        ros_command-Complete s lookup_words cb no_object call.0 call.1 call.2 (λ st c. refl) refl
          h in
      record {
        before = c.before;
        last = c.last;
        left = left;
        splits = c.splits;
        quiet = c.quiet;
        ends = c.ends;
        shows = last_object-feed name (c.before ++ (c.last ∷ [])) call.1 c.shown;
      }
