-- ===== src/Promote/Shown.antt =====
-- About a look for a script in src/promote.c.
use susanin.Prelude.{
  ℕ, zero, suc, ◌≡◌, refl, ◌∙◌, Bool, true, false, ◌&&◌, List, [], ◌∷◌, ◌++◌, Option, none, some,
  All, Bool-cases, Option-cases, inl, inr, arith, length, some-injective,
}
use susanin.Prelude.Int.{ℤ, is_neg, is_zero, pos}
use susanin.Stage.Gone.{is_zero-is_neg}
use susanin.Prelude.Text.{Text, codes, str_eq, str_eq_iff}
use susanin.Fingerprint.{fingerprint_hex}
use susanin.Ros.Sentence.{Sentence, get_attr}
use susanin.Ros.Command.{is_trap, is_done}
use susanin.Ros.Command.Success.{feed}
use susanin.Ros.Session.{Router, Session, sleep}
use susanin.Ros.Session.Leads.{Leads, stays, asks, waits}
use susanin.Ros.Session.Calls.{received, ros_command-Complete}
use susanin.StateCleanup.Match.{attr_true}
use susanin.Promote.{
  ScriptObj, no_script, named_id, attr_text, script_lookup_cb, script_scan_words, script_lookup,
  script_loop, script_lookup_retry, is_same, verify_source,
}

-- The last reply under the name that some replies show, with its id.
unfoldable pub last_shown : Text → List Sentence → Option Sentence
last_shown name [] = none
last_shown name (s ∷ ss) = elim (last_shown name ss) [
  | some o ↦ some o
  | none ↦ elim (named_id name s) [ none ↦ none | some id ↦ some s ]
]

-- A look from `s`: replies without a trap up to `!done`, and the last of them that shows the name is `o`.
pub record Looked {R : Router} (name : Text) (s : Session R) (o : Option Sentence) : Type 0 where
  pub before : List Sentence
  pub last : Sentence
  pub left : List Sentence
  pub splits : received s script_scan_words ≡ before ++ (last ∷ left)
  pub quiet : All (λ st. is_trap st ≡ false) before
  pub ends : is_done last ≡ true
  pub shows : last_shown name (before ++ (last ∷ [])) ≡ o

-- The source that a reply shows.
unfoldable pub source_of : Sentence → Text
unfolding attr_text codes
source_of s = attr_text (get_attr s (codes "source"))

-- Behind some looks from `s`, a last look that ends in `s'` shows the script of that name, not invalid, and
-- the source it shows has that fingerprint and that size.
pub record Verified {R : Router} (name fp : Text) (bytes : ℕ) (s s' : Session R) : Type 1 where
  pub asked : Session R
  pub led : Leads (λ words. words ≡ script_scan_words) s asked
  pub reply : Sentence
  pub looked : Looked name asked (some reply)
  pub valid : attr_true (get_attr reply (codes "invalid")) ≡ false
  pub same_size : length (source_of reply) ≡ bytes
  pub same_fp : fingerprint_hex (source_of reply) ≡ fp
  pub after : (script_lookup asked name).2 ≡ s'

-- The object made of a reply.
abbrev shown_object : Text → Option Sentence → ScriptObj → ScriptObj
shown_object name o out = elim o [ none ↦ out | some s ↦ (script_lookup_cb name s out).1 ]

last_shown-named :
    (name : Text) (ss : List Sentence) (o : Sentence)
    → last_shown name ss ≡ some o
    → (id : Text) × (named_id name o ≡ some id)
unfolding last_shown
last_shown-named name [] o h = cc h
last_shown-named name (s ∷ ss) o h = elim (Option-cases (last_shown name ss)) [
  | inr (p, e) ↦ last_shown-named name ss o (e ∙ rw (e, last_shown) at h)
  | inl e ↦ elim (Option-cases (named_id name s)) [
    | inl k ↦ cc (rw k at (rw (e, last_shown) at h))
    | inr (id, k) ↦
        let same : s ≡ o = some-injective (rw k at (rw (e, last_shown) at h)) in (id, rw (← same) k)
  ]
]

-- The callback keeps nothing of what it held when a reply shows the name.
script_lookup_cb-named :
    (name : Text) (s : Sentence) (a b : ScriptObj) (id : Text)
    → named_id name s ≡ some id
    → (script_lookup_cb name s a).1 ≡ (script_lookup_cb name s b).1
unfolding script_lookup_cb
script_lookup_cb-named name s a b id h = rw (h, script_lookup_cb) refl

script_lookup_cb-unnamed :
    (name : Text) (s : Sentence) (a : ScriptObj)
    → named_id name s ≡ none
    → (script_lookup_cb name s a).1 ≡ a
unfolding script_lookup_cb
script_lookup_cb-unnamed name s a h = rw (h, script_lookup_cb) refl

script_lookup_cb_calm :
    (name : Text) (s : Sentence) (a : ScriptObj) → (script_lookup_cb name s a).0 ≡ pos 0
unfolding script_lookup_cb
script_lookup_cb_calm name s a = ground arith

-- What a reply under the name leaves in the object.
same_parts :
    (o : ScriptObj) (fp : Text) (bytes : ℕ)
    → is_same fp bytes o ≡ true
    → (o.invalid ≡ false) × (o.bytes ≡ bytes) × (o.fp ≡ fp)
unfolding is_same
same_parts o fp bytes h =
    let equal : str_eq o.fp fp ≡ true = ground arith in
    (ground arith, ground arith, (str_eq_iff o.fp fp).0 equal)

script_lookup_cb_object :
    (name : Text) (s : Sentence) (a : ScriptObj) (id fp : Text) (bytes : ℕ)
    → named_id name s ≡ some id
    → is_same fp bytes (script_lookup_cb name s a).1 ≡ true
    → (attr_true (get_attr s (codes "invalid")) ≡ false)
      × (length (source_of s) ≡ bytes)
      × (fingerprint_hex (source_of s) ≡ fp)
unfolding script_lookup_cb source_of
script_lookup_cb_object name s a id fp bytes h k =
    same_parts _ fp bytes (rw (h, script_lookup_cb) at k)

feed-last_shown :
    (name : Text) (ss : List Sentence) (out : ScriptObj)
    → feed (script_lookup_cb name) ss out ≡ shown_object name (last_shown name ss) out
unfolding last_shown
feed-last_shown name [] out = refl
feed-last_shown name (s ∷ ss) out =
    let next = (script_lookup_cb name s out).1 in
    let rest = feed-last_shown name ss next in
    elim (Option-cases (last_shown name ss)) [
      | inr (p, e) ↦
          let (id, k) = last_shown-named name ss p e in
          rw (e, last_shown) ((rw e at rest) ∙ script_lookup_cb-named name p next out id k)
      | inl e ↦ elim (Option-cases (named_id name s)) [
        | inl k ↦ rw (e, last_shown) (rw k ((rw e at rest) ∙ script_lookup_cb-unnamed name s out k))
        | inr (id, k) ↦ rw (e, last_shown) (rw k (rw e at rest))
      ]
    ]

is_same-found : (fp : Text) (bytes : ℕ) (o : ScriptObj) → is_same fp bytes o ≡ true → o.found ≡ true
unfolding is_same
is_same-found fp bytes o h = ground arith

no_script-is_same : (fp : Text) (bytes : ℕ) → is_same fp bytes no_script ≡ false
unfolding is_same
no_script-is_same fp bytes = refl

answered_lem : (rc : ℤ) (b : Bool) → (is_zero rc && b) ≡ true → is_zero rc ≡ true
answered_lem rc b h = ground arith

module _ {R : Router} where
  -- A look that does not fail returns what the last reply under the name shows, if there is one.
  script_lookup-Looked :
      (s : Session R) (name : Text)
      → is_neg (script_lookup s name).0 ≡ false
      → (o : Option Sentence) × Looked name s o
        × ((script_lookup s name).1 ≡ shown_object name o no_script)
  unfolding script_lookup
  script_lookup-Looked s name h =
      let cb = script_lookup_cb name in
      let call = script_lookup s name in
      let (left, c) =
        ros_command-Complete s script_scan_words cb no_script call.0 call.1 call.2
          (script_lookup_cb_calm name) refl h in
      let replies = c.before ++ (c.last ∷ []) in
      (
        last_shown name replies,
        record {
          before = c.before;
          last = c.last;
          left = left;
          splits = c.splits;
          quiet = c.quiet;
          ends = c.ends;
          shows = refl;
        },
        c.shown ∙ feed-last_shown name replies no_script,
      )

  shown_object-Verified :
      (s : Session R) (name fp : Text) (bytes : ℕ) (o : Option Sentence)
      → Looked name s o
      → is_same fp bytes (shown_object name o no_script) ≡ true
      → Verified name fp bytes s (script_lookup s name).2
  shown_object-Verified s name fp bytes none looked k =
      let seen : is_same fp bytes no_script ≡ true = k in
      cc (rw (no_script-is_same fp bytes) at seen)
  shown_object-Verified s name fp bytes (some reply) looked k =
      let (id, named) =
        last_shown-named name (looked.before ++ (looked.last ∷ [])) reply looked.shows in
      let (valid, size, equal) = script_lookup_cb_object name reply no_script id fp bytes named k in
      record {
        asked = s;
        led = stays;
        reply = reply;
        looked = looked;
        valid = valid;
        same_size = size;
        same_fp = equal;
        after = refl;
      }

  script_lookup-Verified :
      (s : Session R) (name fp : Text) (bytes : ℕ)
      → is_neg (script_lookup s name).0 ≡ false
      → is_same fp bytes (script_lookup s name).1 ≡ true
      → Verified name fp bytes s (script_lookup s name).2
  script_lookup-Verified s name fp bytes h k =
      let (o, looked, object) = script_lookup-Looked s name h in
      shown_object-Verified s name fp bytes o looked (rw object at k)

  script_loop-Verified :
      (n : ℕ) (s : Session R) (name fp : Text) (bytes : ℕ) (o : ScriptObj)
      → (script_loop n s name).0 ≡ some o
      → is_same fp bytes o ≡ true
      → Verified name fp bytes s (script_loop n s name).1
  unfolding script_loop script_lookup
  script_loop-Verified zero s name fp bytes o h k = ground arith
  script_loop-Verified (suc n) s name fp bytes o h k =
      let call = script_lookup s name in
      elim (Bool-cases (is_zero call.0 && call.1.found)) [
        | inl e ↦
            let same : call.1 ≡ o = some-injective (rw (e, script_loop) at h) in
            let answered = is_zero-is_neg call.0 (answered_lem call.0 call.1.found e) in
            rw (e, script_loop) (script_lookup-Verified s name fp bytes answered (rw same k))
        | inr e ↦
            let more =
              script_loop-Verified n (sleep call.2) name fp bytes o (rw (e, script_loop) at h) k in
            rw (e, script_loop)
              (record {
                asked = more.asked;
                led =
                    asks script_scan_words (some (script_lookup_cb name)) no_script refl
                      (waits more.led);
                reply = more.reply;
                looked = more.looked;
                valid = more.valid;
                same_size = more.same_size;
                same_fp = more.same_fp;
                after = more.after;
              })
      ]

  pub verify_source-Verified :
      (s : Session R) (name fp : Text) (bytes : ℕ)
      → (verify_source s name fp bytes).0 ≡ true
      → Verified name fp bytes s (verify_source s name fp bytes).1
  unfolding verify_source script_lookup_retry
  verify_source-Verified s name fp bytes h = elim (Option-cases (script_loop 15 s name).0) [
    | inl e ↦ cc (rw (e, verify_source) at h)
    | inr (o, e) ↦ script_loop-Verified 15 s name fp bytes o e (rw (e, verify_source) at h)
  ]
