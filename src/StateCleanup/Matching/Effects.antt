-- ===== src/StateCleanup/Matching/Effects.antt =====
-- About `cleanup_matching` of src/state_cleanup.c: what it sends.
use susanin.Prelude.{ℕ, zero, suc, Bool, not, ◌&&◌, ◌||◌, List, [], ◌∷◌}
use susanin.Prelude.{none, some, ◌==◌, inl, inr, Bool-cases, Option-cases}
use susanin.Prelude.Text.{Text}
use susanin.Ros.Session.{Router, Session, sleep}
use susanin.Ros.Session.Log.{
  SentOnly, SentOnly-refl, SentOnly-trans, SentOnly-ros_command, SentOnly-sleep,
}
use susanin.StateCleanup.Scan.{
  Target, scan_words, id_word, collect_cb, collect_ids, remove_ids_best_effort,
}
use susanin.StateCleanup.Matching.{inspect, verify, remove_found, cleanup_matching, max_attempts}

pub SentOnly-collect_ids :
    {R : Router} (P : List Text → Type 0) (t : Target)
    → P (scan_words t)
    → (s : Session R) → SentOnly P s (collect_ids s t).1
unfolding collect_ids
SentOnly-collect_ids P t scans s =
    SentOnly-ros_command P s (scan_words t) (some (collect_cb t.attr t.match)) [] scans

module _ {R : Router} (P : List Text → Type 0) (t : Target) (scans : P (scan_words t))
    (removes : (id : Text) → P (t.remove_cmd ∷ id_word id ∷ [])) where
  pub SentOnly-remove_ids :
      (ids : List Text) (s : Session R) → SentOnly P s (remove_ids_best_effort s t.remove_cmd ids)
  unfolding remove_ids_best_effort
  SentOnly-remove_ids [] s = SentOnly-refl P s
  SentOnly-remove_ids (id ∷ ids) s =
      SentOnly-trans P (SentOnly-ros_command P s _ none tt (removes id)) (SentOnly-remove_ids ids _)

  SentOnly-inspect :
      (retry : Bool) (left : ℕ) (s : Session R) → SentOnly P s (inspect t retry left s).1
  unfolding inspect
  SentOnly-inspect retry zero s = SentOnly-refl P s
  SentOnly-inspect retry (suc left) s =
      let s' = (collect_ids s t).1 in
      let scan = SentOnly-collect_ids P t scans s in
      elim (Option-cases (collect_ids s t).0) [
        | inl e ↦ elim (Bool-cases (not retry || left == 0)) [
          | inl b ↦ rw (e, inspect) (rw b scan)
          | inr b ↦
              rw (e, inspect)
                (rw b (
                  SentOnly-trans P scan (
                    SentOnly-trans P (SentOnly-sleep P s')
                      (SentOnly-inspect retry left (sleep s')))))
        ]
        | inr (ids, e) ↦ rw (e, inspect) scan
      ]

  SentOnly-verify :
      (retry : Bool) (left initial removed : ℕ) (s : Session R)
      → SentOnly P s (verify t retry left initial removed s).2
  unfolding verify
  SentOnly-verify retry zero initial removed s = SentOnly-refl P s
  SentOnly-verify retry (suc left) initial removed s =
      let s' = (collect_ids (sleep s) t).1 in
      let scan = SentOnly-trans P (SentOnly-sleep P s) (SentOnly-collect_ids P t scans (sleep s)) in
      elim (Option-cases (collect_ids (sleep s) t).0) [
        | inl e ↦ elim (Bool-cases (retry && not (left == 0))) [
          | inl b ↦
              rw (e, verify)
                (rw b (SentOnly-trans P scan (SentOnly-verify retry left initial removed s')))
          | inr b ↦ rw (e, verify) (rw b scan)
        ]
        | inr ([], e) ↦ rw (e, verify) scan
        | inr (id ∷ more, e) ↦ elim (Bool-cases (left == 0)) [
          | inl b ↦ rw (e, verify) (rw b scan)
          | inr b ↦
              rw (e, verify)
                (rw b (
                  SentOnly-trans P scan (
                    SentOnly-trans P (SentOnly-remove_ids (id ∷ more) s')
                      (SentOnly-verify retry left initial removed _))))
        ]
      ]

  SentOnly-remove_found :
      (retry : Bool) (ids : List Text) (removed : ℕ) (s : Session R)
      → SentOnly P s (remove_found t retry ids removed s).2
  unfolding remove_found
  SentOnly-remove_found retry [] removed s = SentOnly-refl P s
  SentOnly-remove_found retry (id ∷ ids) removed s =
      SentOnly-trans P (SentOnly-remove_ids (id ∷ ids) s)
        (SentOnly-verify retry max_attempts _ removed _)

  pub SentOnly-cleanup_matching :
      (retry : Bool) (removed : ℕ) (s : Session R)
      → SentOnly P s (cleanup_matching t retry removed s).2
  unfolding cleanup_matching
  SentOnly-cleanup_matching retry removed s =
      let seen = SentOnly-inspect retry max_attempts s in
      elim (Option-cases (inspect t retry max_attempts s).0) [
        | inl e ↦ rw (e, cleanup_matching) seen
        | inr (ids, e) ↦
            rw (e, cleanup_matching)
              (SentOnly-trans P seen (SentOnly-remove_found retry ids removed _))
      ]
