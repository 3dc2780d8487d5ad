-- ===== src/StateCleanup/Matching.antt =====
-- `cleanup_matching`, src/state_cleanup.c: inspect, remove, and verify until nothing matches.
pub mod Safety
pub mod Effects
use susanin.Prelude.{
  ℕ, zero, suc, Bool, true, false, not, ◌&&◌, ◌||◌, List, [], ◌∷◌, Option, none, some, ◌==◌, length,
}
use susanin.Prelude.Int.{ℤ, pos, minus_one}
use susanin.Prelude.Text.{Text}
use susanin.Ros.Session.{Router, Session, sleep}
use susanin.StateCleanup.Scan.{Target, collect_ids, remove_ids_best_effort, add_stat}

abbrev pub max_attempts : ℕ
max_attempts = 20

module _ {R : Router} (t : Target) (retry_scan_errors : Bool) where
  -- The loop that inspects. `left` is what `inspect_attempt` still has up to 20 when a round begins.
  pub inspect : ℕ → Session R → Option (List Text) × Session R
  inspect zero s = (none, s)
  inspect (suc left) s =
      let (found, s') = collect_ids s t in
      elim found [
        | some ids ↦ (some ids, s')
        | none ↦ elim (not retry_scan_errors || left == 0) [
          | true ↦ (none, s')
          | false ↦ inspect left (sleep s')
        ]
      ]

  -- The loop that verifies and removes again, with `left` rounds behind this one.
  pub verify : ℕ → ℕ → ℕ → Session R → ℤ × ℕ × Session R
  verify zero initial removed s = (minus_one, removed, s)
  verify (suc left) initial removed s =
      let (found, s') = collect_ids (sleep s) t in
      elim found [
        | none ↦ elim (retry_scan_errors && not (left == 0)) [
          | true ↦ verify left initial removed s'
          | false ↦ (minus_one, removed, s')
        ]
        | some ids ↦ elim ids [
          | [] ↦ (pos 0, add_stat removed initial, s')
          | id ∷ more ↦ elim (left == 0) [
            | true ↦ (minus_one, removed, s')
            | false ↦
                verify left initial removed (remove_ids_best_effort s' t.remove_cmd (id ∷ more))
          ]
        ]
      ]

  pub remove_found : List Text → ℕ → Session R → ℤ × ℕ × Session R
  remove_found [] removed s = (pos 0, removed, s)
  remove_found (id ∷ ids) removed s =
      verify max_attempts (length (id ∷ ids)) removed
        (remove_ids_best_effort s t.remove_cmd (id ∷ ids))

  -- The result, the counter `removed` and the session behind the call.
  unfoldable pub cleanup_matching : ℕ → Session R → ℤ × ℕ × Session R
  unfolding inspect verify remove_found
  cleanup_matching removed s =
      let (found, s') = inspect max_attempts s in
      elim found [ none ↦ (minus_one, removed, s') | some ids ↦ remove_found ids removed s' ]
