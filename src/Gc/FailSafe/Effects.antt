-- ===== src/Gc/FailSafe/Effects.antt =====
-- About `gc_fail_safe` of src/gc.c: what it sends.
use susanin.Prelude.{ℕ, ◌+◌, ◌≡◌, refl, false, not, ◌||◌, List, [], ◌∷◌, none, ◌==◌}
use susanin.Prelude.{Bool-cases, Option-cases, inl, inr, if◌then◌else◌}
use susanin.Prelude.Int.{is_neg}
use susanin.Prelude.Text.{Text, codes, str_eq}
use susanin.Prelude.Decimal.{is_empty}
use susanin.Ros.Session.{Router, Session, ros_command}
use susanin.Ros.Session.Log.{
  SentOnly, SentOnly-refl, SentOnly-trans, SentOnly-ros_command, is_change, ends_with,
}
use susanin.StateCleanup.Disable.{auto_rules, verify_words, disable_words}
use susanin.StateCleanup.Disable.Laws.{SentOnly-disable_adaptive_mangle}
use susanin.StateCleanup.Scan.{scan_words}
use susanin.Gc.Names.{prod_names}
use susanin.Gc.Commands.{IsGcCommand, inquiry, pause, disable}
use susanin.Gc.Queries.{query_scheduler_gate, ask}
use susanin.Gc.FailSafe.{pause_words, pause_found, disable_scheduler_exact, pause_all, gc_fail_safe}

-- What the fallback may send: queries, the pause of a scheduler, and the disabling of a mangle rule.
pub data IsFailSafe : List Text → Type 0 where
  asks : {words : List Text} → is_change words ≡ false → IsFailSafe words
  pauses : (id : Text) → IsFailSafe (pause_words id)
  disables : (id : Text) → IsFailSafe (disable_words id)

pub IsFailSafe-allowed : (words : List Text) → IsFailSafe words → IsGcCommand words
IsFailSafe-allowed words (asks h) = inquiry h
IsFailSafe-allowed words (pauses id) = pause id
IsFailSafe-allowed words (disables id) = disable id

scan_is_print : IsFailSafe (scan_words auto_rules)
unfolding scan_words auto_rules is_change ends_with codes str_eq
scan_is_print = asks refl

verify_is_print : IsFailSafe verify_words
unfolding verify_words is_change ends_with codes str_eq
verify_is_print = asks refl

module _ {R : Router} where
  SentOnly-query_scheduler_gate :
      (s : Session R) (name : Text) → SentOnly IsFailSafe s (query_scheduler_gate s name).1
  unfolding query_scheduler_gate ask is_change ends_with codes str_eq
  SentOnly-query_scheduler_gate s name = SentOnly-ros_command IsFailSafe s _ _ _ (asks refl)

  SentOnly-pause_found :
      (name id : Text) (s : Session R) → SentOnly IsFailSafe s (pause_found name id s).1
  unfolding pause_found
  SentOnly-pause_found name id s =
      let call = ros_command s (pause_words id) none tt in
      let sent = SentOnly-ros_command IsFailSafe s (pause_words id) none tt (pauses id) in
      elim (Bool-cases (is_neg call.0)) [
        | inl e ↦ rw (e, pause_found) sent
        | inr e ↦
            rw (e, pause_found)
              (SentOnly-trans IsFailSafe sent (SentOnly-query_scheduler_gate call.2 name))
      ]

  SentOnly-disable_scheduler_exact :
      (name : Text) (s : Session R) → SentOnly IsFailSafe s (disable_scheduler_exact name s).1
  unfolding disable_scheduler_exact
  SentOnly-disable_scheduler_exact name s =
      let s1 = (query_scheduler_gate s name).1 in
      let asked = SentOnly-query_scheduler_gate s name in
      elim (Option-cases (query_scheduler_gate s name).0) [
        | inl e ↦ rw (e, disable_scheduler_exact) asked
        | inr (g, e) ↦ elim (Bool-cases (not (g.count == 1) || is_empty g.id)) [
          | inl b ↦ rw (e, disable_scheduler_exact) (rw b asked)
          | inr b ↦
              rw (e, disable_scheduler_exact)
                (rw b (SentOnly-trans IsFailSafe asked (SentOnly-pause_found name g.id s1)))
        ]
      ]

  SentOnly-pause_all :
      (names : List Text) (failed : ℕ) (s : Session R)
      → SentOnly IsFailSafe s (pause_all names failed s).1
  unfolding pause_all
  SentOnly-pause_all [] failed s = SentOnly-refl IsFailSafe s
  SentOnly-pause_all (name ∷ names) failed s =
      let (paused, s1) = disable_scheduler_exact name s in
      SentOnly-trans IsFailSafe (SentOnly-disable_scheduler_exact name s)
        (SentOnly-pause_all names (if paused then failed else failed + 1) s1)

  -- The fallback sends queries, pauses of schedulers and disabling of mangle rules only.
  pub SentOnly-gc_fail_safe : (s : Session R) → SentOnly IsFailSafe s (gc_fail_safe s).2
  unfolding gc_fail_safe
  SentOnly-gc_fail_safe s =
      let (failed, s1) = pause_all prod_names 0 s in
      SentOnly-trans IsFailSafe (SentOnly-pause_all prod_names 0 s)
        (SentOnly-disable_adaptive_mangle IsFailSafe scan_is_print disables verify_is_print s1)
