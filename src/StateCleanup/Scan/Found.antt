-- ===== src/StateCleanup/Scan/Found.antt =====
-- About `collect_ids` of src/state_cleanup.c: what a scan has seen.
use susanin.Prelude.{◌≡◌, refl, ap, ◌∙◌, sym, true, false, List, [], ◌∷◌, ◌++◌, none, some}
use susanin.Prelude.{All, arith, if◌then◌else◌}
use susanin.Prelude.Int.{ℤ, pos, is_neg}
use susanin.Prelude.Text.{Text, codes}
use susanin.Ros.Sentence.{Sentence, is_reply}
use susanin.Ros.Command.{is_done, is_trap}
use susanin.Ros.Command.Drain.{GoesOn}
use susanin.Ros.Command.Success.{feed}
use susanin.Ros.Session.{Router, Session, ros_command}
use susanin.Ros.Session.Calls.{received, ros_command-Complete}
use susanin.StateCleanup.Match.{Matcher}
use susanin.StateCleanup.Scan.{Target, matching_id, collect_cb, collect_ids, found_ids, scan_words}
use mathlib.Core.List.{append_assoc, append-nil}

-- The ids that replies show for a target: one for each `!re` reply that matches and has an id.
unfoldable pub shown_ids : Text → Matcher → List Sentence → List Text
shown_ids attr match [] = []
shown_ids attr match (s ∷ ss) =
    let rest = shown_ids attr match ss in
    if is_reply s (codes "!re")
    then (elim (matching_id attr match s) [ none ↦ rest | some id ↦ id ∷ rest ])
    else rest

module _ (attr : Text) (match : Matcher) where
  collect_cb_calm : (s : Sentence) (ids : List Text) → (collect_cb attr match s ids).0 ≡ pos 0
  unfolding collect_cb matching_id
  collect_cb_calm s ids = ground arith

  collect_cb_ids :
      (s : Sentence) (ids : List Text)
      → (collect_cb attr match s ids).1 ≡ ids ++ shown_ids attr match (s ∷ [])
  unfolding collect_cb shown_ids matching_id
  collect_cb_ids s ids = ground (arith, append-nil ids)

  shown_ids-cons :
      (s : Sentence) (ss : List Sentence)
      → shown_ids attr match (s ∷ ss) ≡ shown_ids attr match (s ∷ []) ++ shown_ids attr match ss
  unfolding shown_ids
  shown_ids-cons s ss = ground arith

  feed-shown_ids :
      (ss : List Sentence) (ids : List Text)
      → feed (collect_cb attr match) ss ids ≡ ids ++ shown_ids attr match ss
  feed-shown_ids [] ids = unfold shown_ids in sym (append-nil ids)
  feed-shown_ids (s ∷ ss) ids =
      feed-shown_ids ss (collect_cb attr match s ids).1
      ∙ rw (collect_cb_ids s ids) (
          append_assoc ids (shown_ids attr match (s ∷ [])) (shown_ids attr match ss)
          ∙ ap (λ t. ids ++ t) (sym (shown_ids-cons s ss)))

-- A scan as the router answered it: replies without a trap up to `!done`, and their matching ids.
pub record Scanned (t : Target) (ss : List Sentence) (ids : List Text) : Type 0 where
  pub before : List Sentence
  pub last : Sentence
  pub left : List Sentence
  pub splits : ss ≡ before ++ (last ∷ left)
  pub quiet : All (λ s. is_trap s ≡ false) before
  pub ongoing : All GoesOn before
  pub ends : is_done last ≡ true
  pub ids_are : ids ≡ shown_ids t.attr t.match (before ++ (last ∷ []))

found_good :
    (rc : ℤ) (got ids : List Text) → found_ids rc got ≡ some ids → (is_neg rc ≡ false) × (got ≡ ids)
unfolding found_ids
found_good rc got ids h = ground arith

-- A scan that succeeds returns exactly the matching objects of the replies up to `!done`, in order;
-- none of these replies was a trap.
pub collect_ids-Scanned :
    {R : Router} (s : Session R) (t : Target) (ids : List Text) (s' : Session R)
    → collect_ids s t ≡ (some ids, s')
    → Scanned t (received s (scan_words t)) ids
unfolding collect_ids
collect_ids-Scanned s t ids s' h =
    let call = ros_command s (scan_words t) (some (collect_cb t.attr t.match)) [] in
    let (good, same) = found_good call.0 call.1 ids (ap (λ p. p.0) h) in
    let (left, c) =
      ros_command-Complete s (scan_words t) (collect_cb t.attr t.match) [] call.0 call.1 call.2
        (collect_cb_calm t.attr t.match) refl good in
    record {
      before = c.before;
      last = c.last;
      left = left;
      splits = c.splits;
      quiet = c.quiet;
      ongoing = c.ongoing;
      ends = c.ends;
      ids_are = sym same ∙ c.shown ∙ feed-shown_ids t.attr t.match (c.before ++ (c.last ∷ [])) [];
    }
