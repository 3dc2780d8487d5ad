-- ===== src/Gc/Gate.antt =====
-- The ownership gate of src/gc.c: exact current scripts, idle enabled schedulers, enabled fixed rules.
pub mod Safety
pub mod Shown
pub mod Answered
pub mod Pass
use susanin.Prelude.{
  ℕ, Bool, true, false, not, ◌&&◌, ◌||◌, List, [], ◌∷◌, Option, none, some, ◌==◌, if◌then◌else◌,
}
use susanin.Prelude.Int.{ℤ, pos, minus_one, is_neg}
use susanin.Prelude.Text.{Text, str_eq}
use susanin.Ros.Session.{Router, Session}
use susanin.Gc.Names.{prod_names, fixed_comments}
use susanin.Gc.Queries.{
  ScriptGate, SchedulerGate, FixedGate, query_script_gate, query_scheduler_gate,
}
use susanin.Gc.Queries.{query_fixed_gate, managed_job_count}

-- One script of `susanin_render_bundle_t`: the size and the fingerprint of the desired source.
pub record Script : Type 0 where
  pub bytes : ℕ
  pub fp : Text

-- What the gate makes of its answers: `pass` goes on, `skip` is 1 and `unsafe` is -1.
pub data Verdict : Type 0 where
  pass : Verdict
  skip : Verdict
  unsafe : Verdict

unfoldable pub script_is_exact : Script → ScriptGate → Bool
script_is_exact want g =
    g.count == 1 && not g.invalid && g.bytes == want.bytes && str_eq g.fp want.fp

unfoldable pub scheduler_is_normal : Text → SchedulerGate → Bool
scheduler_is_normal name g = g.count == 1 && not g.disabled && str_eq g.on_event name

unfoldable pub fixed_is_normal : FixedGate → Bool
fixed_is_normal g = g.count == 1 && not g.disabled

module _ {R : Router} where
  -- The loop that proves ownership. The names and the desired scripts are arrays of the same length.
  unfoldable pub check_scripts : List Text → List Script → Session R → Verdict × Session R
  check_scripts [] wants s = (pass, s)
  check_scripts (name ∷ names) [] s = (skip, s)
  check_scripts (name ∷ names) (want ∷ wants) s =
      let (g, s') = query_script_gate s name in
      elim g [
        | none ↦ (skip, s')
        | some g' ↦ elim (script_is_exact want g') [
          | true ↦ check_scripts names wants s'
          | false ↦ (skip, s')
        ]
      ]

  unfoldable pub check_schedulers : List Text → Session R → Verdict × Session R
  check_schedulers [] s = (pass, s)
  check_schedulers (name ∷ names) s =
      let (g, s1) = query_scheduler_gate s name in
      elim g [
        | none ↦ (unsafe, s1)
        | some g' ↦ elim (scheduler_is_normal name g') [
          | false ↦ (skip, s1)
          | true ↦
              let (jobs, s2) = managed_job_count s1 name in
              elim jobs [
                | none ↦ (unsafe, s2)
                | some n ↦ elim (n == 0) [ true ↦ check_schedulers names s2 | false ↦ (skip, s2) ]
              ]
        ]
      ]

  unfoldable pub check_fixed : List Text → Session R → Verdict × Session R
  check_fixed [] s = (pass, s)
  check_fixed (comment ∷ comments) s =
      let (g, s') = query_fixed_gate s comment in
      elim g [
        | none ↦ (unsafe, s')
        | some g' ↦ elim (fixed_is_normal g') [
          | true ↦ check_fixed comments s'
          | false ↦ (skip, s')
        ]
      ]

  -- One stage of the gate is entered only when the one before passed.
  unfoldable pub and_then :
      Verdict × Session R → (Session R → Verdict × Session R) → Verdict × Session R
  and_then (pass, s) next = next s
  and_then (skip, s) next = (skip, s)
  and_then (unsafe, s) next = (unsafe, s)

  -- `gc_normal_runtime_gate` behind `renderer_build`, whose failure is a skip.
  unfoldable pub normal_runtime_gate : Option (List Script) → Session R → Verdict × Session R
  unfolding check_scripts check_schedulers check_fixed and_then
  normal_runtime_gate none s = (skip, s)
  normal_runtime_gate (some desired) s =
      and_then
        (and_then (check_scripts prod_names desired s) (λ s1. check_schedulers prod_names s1))
        (λ s2. check_fixed fixed_comments s2)
