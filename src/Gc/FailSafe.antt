-- ===== src/Gc/FailSafe.antt =====
-- The failed-safe fallback of src/gc.c: pause the schedulers, then disable the adaptive mangle rules.
pub mod Effects
pub mod Paused
use susanin.Prelude.{
  ℕ, ◌+◌, Bool, true, false, not, ◌&&◌, ◌||◌, List, [], ◌∷◌, ◌++◌, Option, none, some, ◌==◌,
  if◌then◌else◌,
}
use susanin.Prelude.Int.{ℤ, minus_one, is_neg}
use susanin.Prelude.Text.{Text, codes, copy_to}
use susanin.Prelude.Decimal.{is_empty}
use susanin.Ros.Session.{Router, Session, ros_command}
use susanin.StateCleanup.Disable.{disable_adaptive_mangle}
use susanin.Gc.Names.{prod_names}
use susanin.Gc.Queries.{SchedulerGate, query_scheduler_gate}

unfoldable pub pause_words : Text → List Text
pause_words id =
    codes "/system/scheduler/set" ∷ copy_to 96 (codes "=.id=" ++ id) ∷ codes "=disabled=true" ∷ []

unfoldable pub is_paused : Option SchedulerGate → Bool
is_paused none = false
is_paused (some g) = g.count == 1 && g.disabled

module _ {R : Router} where
  -- The write and the read-back of `disable_scheduler_exact`, for a scheduler that was found once.
  unfoldable pub pause_found : Text → Text → Session R → Bool × Session R
  pause_found name id s =
      let (rc, _, s1) = ros_command s (pause_words id) none tt in
      elim (is_neg rc) [
        | true ↦ (false, s1)
        | false ↦ let (after, s2) = query_scheduler_gate s1 name in (is_paused after, s2)
      ]

  unfoldable pub disable_scheduler_exact : Text → Session R → Bool × Session R
  unfolding pause_found
  disable_scheduler_exact name s =
      let (sched, s1) = query_scheduler_gate s name in
      elim sched [
        | none ↦ (false, s1)
        | some g ↦ elim (not (g.count == 1) || is_empty g.id) [
          | true ↦ (false, s1)
          | false ↦ pause_found name g.id s1
        ]
      ]

  -- The loop over the schedulers: how many could not be paused.
  unfoldable pub pause_all : List Text → ℕ → Session R → ℕ × Session R
  pause_all [] failed s = (failed, s)
  pause_all (name ∷ names) failed s =
      let (paused, s1) = disable_scheduler_exact name s in
      pause_all names (if paused then failed else failed + 1) s1

  -- `gc_fail_safe`, with what it reports: the schedulers that failed, and the result of the fallback.
  unfoldable pub gc_fail_safe : Session R → ℤ × (ℕ × ℤ) × Session R
  unfolding pause_all
  gc_fail_safe s =
      let (failed, s1) = pause_all prod_names 0 s in
      let (mangle_rc, s2) = disable_adaptive_mangle s1 in (minus_one, (failed, mangle_rc), s2)
