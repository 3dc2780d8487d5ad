-- ===== src/Gc/Marks/Cleared.antt =====
-- About `verify_mark_ids_absent` of src/gc.c: what the look behind a removal of marks has seen.
use susanin.Prelude.{
  ℕ, zero, suc, ◌≡◌, refl, Bool, true, false, ◌&&◌, ◌==◌, List, [], ◌∷◌, ◌++◌, none, some, All, any,
  inl, inr, arith, Bool-cases, Option-cases,
}
use susanin.Prelude.Text.{Text, codes, str_eq, copy_to}
use susanin.Ros.Sentence.{Sentence, get_attr}
use susanin.Ros.Session.{Router, Session, sleep}
use susanin.Ros.Session.Leads.{Leads, stays, asks, waits}
use susanin.Gc.Names.{Kind, mark_name}
use susanin.Gc.Queries.{ask, is_re}
use susanin.Gc.Queries.Answers.{Answer, ask-unseen}
use susanin.Gc.Marks.{verify_marks_cb, verify_mark_ids_absent_once, verify_mark_loop}

abbrev pub mark_words : Kind → List Text
mark_words kind =
    codes "/ip/firewall/connection/print"
    ∷ codes "=.proplist=.id"
    ∷ copy_to 128 (codes "?connection-mark=" ++ mark_name kind)
    ∷ []

-- A `!re` reply that shows one of the ids.
unfoldable pub shows_any : List Text → Sentence → Bool
shows_any ids s = elim (get_attr s (codes ".id")) [
  | none ↦ false
  | some id ↦ is_re s && any (str_eq id) ids
]

-- Behind some looks from `s`, a last look at the connections of the mark, which ends in `s'`, was answered
-- in full, and no reply shows one of the ids.
pub record SeenCleared {R : Router} (kind : Kind) (ids : List Text) (s s' : Session R)
    : Type 1 where
  pub asked : Session R
  pub led : Leads (λ words. words ≡ mark_words kind) s asked
  pub answer : Answer asked (mark_words kind)
  pub absent : All (λ st. shows_any ids st ≡ false) (answer.before ++ (answer.last ∷ []))
  pub after : (verify_mark_ids_absent_once kind ids asked).1 ≡ s'

verify_marks_cb_finds :
    (ids : List Text) (s : Sentence) (found : Bool)
    → shows_any ids s ≡ true
    → (verify_marks_cb ids s found).1 ≡ true
unfolding verify_marks_cb shows_any
verify_marks_cb_finds ids s found h = ground arith

verify_marks_cb_passes :
    (ids : List Text) (s : Sentence) (found : Bool)
    → shows_any ids s ≡ false
    → (verify_marks_cb ids s found).1 ≡ found
unfolding verify_marks_cb shows_any
verify_marks_cb_passes ids s found h = ground arith

module _ {R : Router} (kind : Kind) (ids : List Text) where
  verify_once-Answer :
      (s : Session R)
      → (verify_mark_ids_absent_once kind ids s).0 ≡ some false
      → SeenCleared kind ids s (verify_mark_ids_absent_once kind ids s).1
  unfolding verify_mark_ids_absent_once
  verify_once-Answer s h =
      let (a, absent) =
        ask-unseen (verify_marks_cb ids) (shows_any ids) (verify_marks_cb_finds ids)
          (verify_marks_cb_passes ids) (λ st found. unfold verify_marks_cb in refl) s
          (mark_words kind) h in
      record { asked = s; led = stays; answer = a; absent = absent; after = refl }

  look_again :
      {s s' : Session R}
      → SeenCleared kind ids (sleep (verify_mark_ids_absent_once kind ids s).1) s'
      → SeenCleared kind ids s s'
  unfolding verify_mark_ids_absent_once ask
  look_again more = record {
    asked = more.asked;
    led = asks (mark_words kind) (some (verify_marks_cb ids)) false refl (waits more.led);
    answer = more.answer;
    absent = more.absent;
    after = more.after;
  }

  pub verify_mark_loop-SeenCleared :
      (left : ℕ) (s : Session R)
      → (verify_mark_loop left kind ids s).0 ≡ true
      → SeenCleared kind ids s (verify_mark_loop left kind ids s).1
  unfolding verify_mark_loop
  verify_mark_loop-SeenCleared zero s h = cc h
  verify_mark_loop-SeenCleared (suc left) s h =
      let once = verify_mark_ids_absent_once kind ids s in
      elim (Option-cases once.0) [
        | inr (false, e) ↦ rw (e, verify_mark_loop) (verify_once-Answer s e)
        | inr (true, e) ↦ elim (Bool-cases (left == 0)) [
          | inl z ↦ cc (rw z at (rw (e, verify_mark_loop) at h))
          | inr z ↦
              rw (e, verify_mark_loop)
                (rw z (
                  look_again (
                    verify_mark_loop-SeenCleared left (sleep once.1)
                      (rw z at (rw (e, verify_mark_loop) at h)))))
        ]
        | inl e ↦ elim (Bool-cases (left == 0)) [
          | inl z ↦ cc (rw z at (rw (e, verify_mark_loop) at h))
          | inr z ↦
              rw (e, verify_mark_loop)
                (rw z (
                  look_again (
                    verify_mark_loop-SeenCleared left (sleep once.1)
                      (rw z at (rw (e, verify_mark_loop) at h)))))
        ]
      ]
