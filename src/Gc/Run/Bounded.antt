-- ===== src/Gc/Run/Bounded.antt =====
-- About the stages of `susanin_gc_run_once`, src/gc.c: what each has used of the budget.
use susanin.Prelude.{ℕ, ◌+◌, Bool, true, false, Option, none, some}
use susanin.Prelude.{Option-cases, inl, inr, arith}
use susanin.Ros.Session.{Router, Session}
use susanin.Ros.Session.Log.{Issued, Issued-refl, Issued-trans}
use susanin.Gc.Names.{
  Kind, test, ok, lazy_test_budget, lazy_ok_budget, mark_test_budget, mark_ok_budget,
}
use susanin.Gc.Commands.{IsGcCommand}
use susanin.Gc.Spent.{Spent, Spent-idle, Spent-after, Spent-trans, Spent-weaken}
use susanin.Gc.Lazy.{GcStats, LazyCollect, collect_lazy_kind}
use susanin.Gc.Lazy.Scan.{Issued-collect_lazy_kind}
use susanin.Gc.Lazy.Budget.{Spent-process_lazy_kind}
use susanin.Gc.Marks.{MarkCollect, collect_mark_kind}
use susanin.Gc.Marks.Scan.{Issued-collect_mark_kind}
use susanin.Gc.Marks.Budget.{Spent-process_mark_kind}
use susanin.Gc.Run.{
  Stage, count_truncated, and_also, scan_both, process_lazy, process_marks, lazy_stage, mark_stage,
  budget_stage, mutate,
}

module _ {R : Router} where
  Spent-and_also :
      {k m : ℕ} {stats : GcStats} {s : Session R} (out : Stage R)
      (next : GcStats → Session R → Stage R)
      → Spent k stats s out
      → ((st : GcStats) (t : Session R) → Spent m st t (next st t))
      → Spent (k + m) stats s (and_also out next)
  unfolding and_also
  Spent-and_also (true, st, t) next p q = Spent-trans st t (next st t) p (q st t)
  Spent-and_also (false, st, t) next p q = Spent-weaken (false, st, t) (omega arith) p

  Issued-scan_both :
      {C : Type 0} (collect : Kind → Session R → Option C × Session R) (s : Session R)
      → ((kind : Kind) (t : Session R) → Issued IsGcCommand 0 t (collect kind t).1)
      → Issued IsGcCommand 0 s (scan_both collect s).1
  unfolding scan_both
  Issued-scan_both collect s sends = elim (Option-cases (collect test s).0) [
    | inl e ↦ rw (e, scan_both) (sends test s)
    | inr (c, e) ↦
        rw (e, scan_both)
          (Issued-trans IsGcCommand 0 0 0 (omega arith) (sends test s)
            (sends ok (collect test s).1))
  ]

  -- Truncated scans are counted beside the other counters.
  Spent-count_truncated :
      {k : ℕ} (b : Bool) (stats : GcStats) (s : Session R) (out : Stage R)
      → Spent k (count_truncated b stats) s out
      → Spent k stats s out
  Spent-count_truncated true stats s out p = record {
    spent = p.spent;
    bounded = p.bounded;
    counted = p.counted;
    skip_kept = p.skip_kept;
    verified = p.verified;
    issued = p.issued;
  }
  Spent-count_truncated false stats s out p = p

  Spent-process_lazy :
      (both : Option (LazyCollect × LazyCollect)) (stats : GcStats) (s : Session R)
      → Spent 8 stats s (process_lazy both stats s)
  unfolding process_lazy
  Spent-process_lazy none stats s = Spent-idle 8 stats s s false (Issued-refl IsGcCommand 0 s)
  Spent-process_lazy (some (a, b)) stats s = Spent-count_truncated a.truncated stats s _ (
      Spent-count_truncated b.truncated (count_truncated a.truncated stats) s _ (
        Spent-and_also _ _ (Spent-process_lazy_kind a.items lazy_test_budget _ s)
          (λ st t. Spent-process_lazy_kind b.items lazy_ok_budget st t)))

  Spent-process_marks :
      (both : Option (MarkCollect × MarkCollect)) (stats : GcStats) (s : Session R)
      → Spent 4 stats s (process_marks both stats s)
  unfolding process_marks
  Spent-process_marks none stats s = Spent-idle 4 stats s s false (Issued-refl IsGcCommand 0 s)
  Spent-process_marks (some (a, b)) stats s = Spent-count_truncated a.truncated stats s _ (
      Spent-count_truncated b.truncated (count_truncated a.truncated stats) s _ (
        Spent-and_also _ _ (Spent-process_mark_kind test a.items mark_test_budget _ s)
          (λ st t. Spent-process_mark_kind ok b.items mark_ok_budget st t)))

  Spent-lazy_stage : (stats : GcStats) (s : Session R) → Spent 8 stats s (lazy_stage stats s)
  unfolding lazy_stage
  Spent-lazy_stage stats s =
      let (both, s1) = scan_both collect_lazy_kind s in
      Spent-after _ (Issued-scan_both collect_lazy_kind s Issued-collect_lazy_kind)
        (Spent-process_lazy both stats s1)

  Spent-mark_stage : (stats : GcStats) (s : Session R) → Spent 4 stats s (mark_stage stats s)
  unfolding mark_stage
  Spent-mark_stage stats s =
      let (both, s1) = scan_both collect_mark_kind s in
      Spent-after _ (Issued-scan_both collect_mark_kind s Issued-collect_mark_kind)
        (Spent-process_marks both stats s1)

  Spent-budget_stage : (stats : GcStats) (s : Session R) → Spent 0 stats s (budget_stage stats s)
  unfolding budget_stage
  Spent-budget_stage stats s = Spent-idle 0 stats s s _ (Issued-refl IsGcCommand 0 s)

  pub Spent-families :
      (stats : GcStats) (s : Session R)
      → Spent 12 stats s (and_also (lazy_stage stats s) mark_stage)
  Spent-families stats s = Spent-and_also _ mark_stage (Spent-lazy_stage stats s) Spent-mark_stage

  pub Spent-mutate : (stats : GcStats) (s : Session R) → Spent 12 stats s (mutate stats s)
  unfolding mutate
  Spent-mutate stats s = Spent-and_also _ budget_stage (Spent-families stats s) Spent-budget_stage
