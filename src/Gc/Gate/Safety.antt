-- ===== src/Gc/Gate/Safety.antt =====
-- About `gc_normal_runtime_gate` of src/gc.c: what it sends.
use susanin.Prelude.{List, [], ◌∷◌, Option, none, some, ◌==◌, arith}
use susanin.Prelude.{Bool-cases, Option-cases, inl, inr}
use susanin.Prelude.Text.{Text}
use susanin.Ros.Session.{Router, Session}
use susanin.Ros.Session.Log.{Issued, Issued-refl, Issued-trans}
use susanin.Gc.Commands.{IsGcCommand}
use susanin.Gc.Names.{prod_names, fixed_comments}
use susanin.Gc.Queries.{
  query_script_gate, query_scheduler_gate, query_fixed_gate, managed_job_count,
}
use susanin.Gc.Queries.Prints.{
  Issued-query_script_gate, Issued-query_scheduler_gate, Issued-query_fixed_gate,
  Issued-managed_job_count,
}
use susanin.Gc.Gate.{
  Script, Verdict, pass, skip, unsafe, script_is_exact, scheduler_is_normal, fixed_is_normal,
  check_scripts, check_schedulers, check_fixed, and_then, normal_runtime_gate,
}

module _ {R : Router} where
  Issued-check_scripts :
      (names : List Text) (wants : List Script) (s : Session R)
      → Issued IsGcCommand 0 s (check_scripts names wants s).1
  unfolding check_scripts
  Issued-check_scripts [] wants s = Issued-refl IsGcCommand 0 s
  Issued-check_scripts (name ∷ names) [] s = Issued-refl IsGcCommand 0 s
  Issued-check_scripts (name ∷ names) (want ∷ wants) s =
      let asked = Issued-query_script_gate s name in
      elim (Option-cases (query_script_gate s name).0) [
        | inl e ↦ rw (e, check_scripts) asked
        | inr (g, e) ↦ elim (Bool-cases (script_is_exact want g)) [
          | inl b ↦
              rw (e, check_scripts)
                (rw b (
                  Issued-trans IsGcCommand 0 0 0 (omega arith) asked
                    (Issued-check_scripts names wants _)))
          | inr b ↦ rw (e, check_scripts) (rw b asked)
        ]
      ]

  Issued-check_schedulers :
      (names : List Text) (s : Session R) → Issued IsGcCommand 0 s (check_schedulers names s).1
  unfolding check_schedulers
  Issued-check_schedulers [] s = Issued-refl IsGcCommand 0 s
  Issued-check_schedulers (name ∷ names) s =
      let s1 = (query_scheduler_gate s name).1 in
      let asked = Issued-query_scheduler_gate s name in
      let both =
        Issued-trans IsGcCommand 0 0 0 (omega arith) asked (Issued-managed_job_count s1 name) in
      elim (Option-cases (query_scheduler_gate s name).0) [
        | inl e ↦ rw (e, check_schedulers) asked
        | inr (g, e) ↦ elim (Bool-cases (scheduler_is_normal name g)) [
          | inr b ↦ rw (e, check_schedulers) (rw b asked)
          | inl b ↦ elim (Option-cases (managed_job_count s1 name).0) [
            | inl j ↦ rw (e, check_schedulers) (rw b (rw j both))
            | inr (n, j) ↦ elim (Bool-cases (n == 0)) [
              | inl z ↦
                  rw (e, check_schedulers)
                    (rw b (
                      rw j (
                        rw z (
                          Issued-trans IsGcCommand 0 0 0 (omega arith) both
                            (Issued-check_schedulers names _)))))
              | inr z ↦ rw (e, check_schedulers) (rw b (rw j (rw z both)))
            ]
          ]
        ]
      ]

  Issued-check_fixed :
      (comments : List Text) (s : Session R) → Issued IsGcCommand 0 s (check_fixed comments s).1
  unfolding check_fixed
  Issued-check_fixed [] s = Issued-refl IsGcCommand 0 s
  Issued-check_fixed (comment ∷ comments) s =
      let asked = Issued-query_fixed_gate s comment in
      elim (Option-cases (query_fixed_gate s comment).0) [
        | inl e ↦ rw (e, check_fixed) asked
        | inr (g, e) ↦ elim (Bool-cases (fixed_is_normal g)) [
          | inl b ↦
              rw (e, check_fixed)
                (rw b (
                  Issued-trans IsGcCommand 0 0 0 (omega arith) asked
                    (Issued-check_fixed comments _)))
          | inr b ↦ rw (e, check_fixed) (rw b asked)
        ]
      ]

  Issued-and_then :
      (s : Session R) (r : Verdict × Session R) (next : Session R → Verdict × Session R)
      → Issued IsGcCommand 0 s r.1
      → ((s1 : Session R) → Issued IsGcCommand 0 s1 (next s1).1)
      → Issued IsGcCommand 0 s (and_then r next).1
  unfolding and_then
  Issued-and_then s (pass, s1) next i n = Issued-trans IsGcCommand 0 0 0 (omega arith) i (n s1)
  Issued-and_then s (skip, s1) next i n = i
  Issued-and_then s (unsafe, s1) next i n = i

  -- Whatever it finds, the gate sends `print` commands only.
  pub Issued-normal_runtime_gate :
      (desired : Option (List Script)) (s : Session R)
      → Issued IsGcCommand 0 s (normal_runtime_gate desired s).1
  unfolding normal_runtime_gate
  Issued-normal_runtime_gate none s = Issued-refl IsGcCommand 0 s
  Issued-normal_runtime_gate (some desired) s =
      Issued-and_then s _ _
        (Issued-and_then s _ _ (Issued-check_scripts prod_names desired s)
          (λ s1. Issued-check_schedulers prod_names s1))
        (λ s2. Issued-check_fixed fixed_comments s2)
