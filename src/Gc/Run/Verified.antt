-- ===== src/Gc/Run/Verified.antt =====
-- About `susanin_gc_run_once`, src/gc.c, when it reports success: what it has seen.
use susanin.Prelude.{
  ◌≡◌, refl, sym, ap, ◌∙◌, List, true, false, none, some, ◌⊎◌, inl, inr, arith, Option-cases,
}
use mathlib.Core.Path.{subst}
use susanin.Prelude.Int.{ℤ, is_neg}
use susanin.Ros.Session.{Router, Session}
use susanin.Gc.Names.{test, ok, lazy_test_budget, lazy_ok_budget, mark_test_budget, mark_ok_budget}
use susanin.Gc.Gate.{Script, Verdict, pass, skip, unsafe, normal_runtime_gate}
use susanin.Gc.Gate.Pass.{GateOpen, normal_runtime_gate-pass_iff}
use susanin.Gc.FailSafe.{gc_fail_safe}
use susanin.Gc.Lazy.{GcStats, LazyCollect, collect_lazy_kind, process_lazy_kind}
use susanin.Gc.Lazy.Verified.{Processed, process_lazy_kind-Processed}
use susanin.Gc.Marks.{MarkCollect, collect_mark_kind, process_mark_kind}
use susanin.Gc.Marks.Verified.{MarksDone, process_mark_kind-MarksDone}
use susanin.Gc.Run.{
  Build, Stage, no_gc_stats, count_truncated, and_also, scan_both, process_lazy, process_marks,
  lazy_stage, mark_stage, budget_stage, mutate, finish, run_gated, gc_run_once,
}

-- From `s` to `s'`, both kinds of lazy rules were scanned and then dealt with.
pub record RulesDone {R : Router} (s s' : Session R) : Type 0 where
  pub tests : LazyCollect
  pub oks : LazyCollect
  pub scanned : (scan_both collect_lazy_kind s).0 ≡ some (tests, oks)
  pub between : Session R
  pub first : Processed tests.items lazy_test_budget (scan_both collect_lazy_kind s).1 between
  pub second : Processed oks.items lazy_ok_budget between s'

-- The same for the connection marks.
pub record ConnectionsDone {R : Router} (s s' : Session R) : Type 1 where
  pub tests : MarkCollect
  pub oks : MarkCollect
  pub scanned : (scan_both collect_mark_kind s).0 ≡ some (tests, oks)
  pub between : Session R
  pub first : MarksDone test tests.items mark_test_budget (scan_both collect_mark_kind s).1 between
  pub second : MarksDone ok oks.items mark_ok_budget between s'

-- Behind the scripts that were rendered, the gate was open, and behind the gate the rules were dealt with,
-- and then the connections.
pub record Collected {R : Router} (build : Build R) (s s' : Session R) : Type 1 where
  pub desired : List Script
  pub rendered : (build s).0 ≡ some desired
  pub opened : Session R
  pub gate : GateOpen desired (build s).1 opened
  pub cleaned : Session R
  pub rules : RulesDone opened cleaned
  pub connections : ConnectionsDone cleaned s'

module _ {R : Router} where
  and_also-true :
      (out : Stage R) (next : GcStats → Session R → Stage R)
      → (and_also out next).0 ≡ true
      → (out.0 ≡ true) × (and_also out next ≡ next out.1 out.2)
  unfolding and_also
  and_also-true (true, stats, s) next h = (refl, refl)
  and_also-true (false, stats, s) next h = cc h

  process_lazy-true :
      (tests oks : LazyCollect) (stats : GcStats) (s : Session R)
      → (process_lazy (some (tests, oks)) stats s).0 ≡ true
      → (between : Session R) × Processed tests.items lazy_test_budget s between
        × Processed oks.items lazy_ok_budget between (process_lazy (some (tests, oks)) stats s).2
  unfolding process_lazy
  process_lazy-true tests oks stats s h =
      let next : GcStats → Session R → Stage R =
        λ st s1. process_lazy_kind oks.items lazy_ok_budget st s1 in
      let st = count_truncated oks.truncated (count_truncated tests.truncated stats) in
      let one = process_lazy_kind tests.items lazy_test_budget st s in
      let (good, same) = and_also-true one next h in
      (
        one.2,
        process_lazy_kind-Processed tests.items lazy_test_budget st s good,
        rw same (
            process_lazy_kind-Processed oks.items lazy_ok_budget one.1 one.2
              (sym (ap (λ r. r.0) same) ∙ h)),
      )

  process_marks-true :
      (tests oks : MarkCollect) (stats : GcStats) (s : Session R)
      → (process_marks (some (tests, oks)) stats s).0 ≡ true
      → (between : Session R) × MarksDone test tests.items mark_test_budget s between
        × MarksDone ok oks.items mark_ok_budget between
            (process_marks (some (tests, oks)) stats s).2
  unfolding process_marks
  process_marks-true tests oks stats s h =
      let next : GcStats → Session R → Stage R =
        λ st s1. process_mark_kind ok oks.items mark_ok_budget st s1 in
      let st = count_truncated oks.truncated (count_truncated tests.truncated stats) in
      let one = process_mark_kind test tests.items mark_test_budget st s in
      let (good, same) = and_also-true one next h in
      (
        one.2,
        process_mark_kind-MarksDone test tests.items mark_test_budget st s good,
        rw same (
            process_mark_kind-MarksDone ok oks.items mark_ok_budget one.1 one.2
              (sym (ap (λ r. r.0) same) ∙ h)),
      )

  lazy_stage-RulesDone :
      (stats : GcStats) (s : Session R)
      → (lazy_stage stats s).0 ≡ true
      → RulesDone s (lazy_stage stats s).2
  unfolding lazy_stage process_lazy
  lazy_stage-RulesDone stats s h =
      let scan = scan_both collect_lazy_kind s in
      elim (Option-cases scan.0) [
        | inl e ↦ cc (rw (e, lazy_stage) at h)
        | inr ((tests, oks), e) ↦
            let good = rw (e, lazy_stage) at h in
            let (between, first, second) = process_lazy-true tests oks stats scan.1 good in
            rw (e, lazy_stage)
              (record {
                tests = tests;
                oks = oks;
                scanned = e;
                between = between;
                first = first;
                second = second;
              })
      ]

  mark_stage-ConnectionsDone :
      (stats : GcStats) (s : Session R)
      → (mark_stage stats s).0 ≡ true
      → ConnectionsDone s (mark_stage stats s).2
  unfolding mark_stage process_marks
  mark_stage-ConnectionsDone stats s h =
      let scan = scan_both collect_mark_kind s in
      elim (Option-cases scan.0) [
        | inl e ↦ cc (rw (e, mark_stage) at h)
        | inr ((tests, oks), e) ↦
            let good = rw (e, mark_stage) at h in
            let (between, first, second) = process_marks-true tests oks stats scan.1 good in
            rw (e, mark_stage)
              (record {
                tests = tests;
                oks = oks;
                scanned = e;
                between = between;
                first = first;
                second = second;
              })
      ]

  mutate-done :
      (stats : GcStats) (s : Session R)
      → (mutate stats s).0 ≡ true
      → (cleaned : Session R) × RulesDone s cleaned × ConnectionsDone cleaned (mutate stats s).2
  unfolding mutate budget_stage
  mutate-done stats s h =
      let rules = lazy_stage stats s in
      let both = and_also rules mark_stage in
      let (good, same) = and_also-true both budget_stage h in
      let (first, second) = and_also-true rules mark_stage good in
      (
        rules.2,
        lazy_stage-RulesDone stats s first,
        rw same (
            rw second
              (mark_stage-ConnectionsDone rules.1 rules.2 (sym (ap (λ r. r.0) second) ∙ good))),
      )

  -- A stage that fails ends in the fallback, which fails.
  finish_lem :
      (P : Session R → Type 1) (out : Stage R) (s' : Session R) (rc : ℤ) (stats : GcStats)
      → finish out ≡ (rc, stats, s')
      → is_neg rc ≡ false
      → (out.0 ≡ true → P out.2)
      → P s'
  unfolding finish gc_fail_safe
  finish_lem P (true, st, t) s' rc stats h n p = subst P (ap (λ r. r.2) h) (p refl)
  finish_lem P (false, st, t) s' rc stats h n p = ground arith

  skipped_lem :
      (t s' : Session R) (rc : ℤ) (stats : GcStats)
      → run_gated (normal_runtime_gate none t).0 (normal_runtime_gate none t).1 ≡ (rc, stats, s')
      → stats.skipped ≡ true
  unfolding run_gated normal_runtime_gate
  skipped_lem t s' rc stats h = sym (ap (λ r. r.1.skipped) h)

  finish-done :
      (stats : GcStats) (s s' : Session R) (rc : ℤ) (stats' : GcStats)
      → finish (mutate stats s) ≡ (rc, stats', s')
      → is_neg rc ≡ false
      → (cleaned : Session R) × RulesDone s cleaned × ConnectionsDone cleaned s'
  unfolding finish gc_fail_safe
  finish-done stats s s' rc stats' h n =
      finish_lem (λ u. (cleaned : Session R) × RulesDone s cleaned × ConnectionsDone cleaned u)
        (mutate stats s) s' rc stats' h n (mutate-done stats s)

  -- When the gate passed, the rules and the connections were dealt with.
  gated-Collected :
      (build : Build R) (s : Session R) (desired : List Script) (v : Verdict) (t s' : Session R)
      (rc : ℤ) (stats : GcStats)
      → (build s).0 ≡ some desired
      → normal_runtime_gate (some desired) (build s).1 ≡ (v, t)
      → run_gated v t ≡ (rc, stats, s')
      → is_neg rc ≡ false
      → (stats.skipped ≡ true) ⊎ Collected build s s'
  unfolding run_gated finish gc_fail_safe
  gated-Collected build s desired pass t s' rc stats d g h n =
      let (cleaned, rules, connections) = finish-done no_gc_stats t s' rc stats h n in
      inr (record {
        desired = desired;
        rendered = d;
        opened = t;
        gate = (normal_runtime_gate-pass_iff desired (build s).1 t).0 g;
        cleaned = cleaned;
        rules = rules;
        connections = connections;
      })
  gated-Collected build s desired skip t s' rc stats d g h n = inl (sym (ap (λ r. r.1.skipped) h))
  gated-Collected build s desired unsafe t s' rc stats d g h n = ground arith

  -- A run that reports success was skipped, or the gate was open and behind it the rules and the connections
  -- were dealt with.
  pub gc_run_once-Collected :
      (build : Build R) (s s' : Session R) (rc : ℤ) (stats : GcStats)
      → gc_run_once build s ≡ (rc, stats, s')
      → is_neg rc ≡ false
      → (stats.skipped ≡ true) ⊎ Collected build s s'
  unfolding gc_run_once
  gc_run_once-Collected build s s' rc stats h n = elim (Option-cases (build s).0) [
    | inl e ↦ inl (skipped_lem (build s).1 s' rc stats (rw (e, gc_run_once) at h))
    | inr (desired, e) ↦
        let gate = normal_runtime_gate (some desired) (build s).1 in
        gated-Collected build s desired gate.0 gate.1 s' rc stats e refl (rw (e, gc_run_once) at h)
          n
  ]
