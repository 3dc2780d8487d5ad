-- ===== src/Gc/Run.antt =====
-- `susanin_gc_run_once`, src/gc.c: the gate, the four bounded families, and the failed-safe endings.
pub mod Bounded
pub mod Endings
pub mod Verified
pub mod Owned
pub mod Rendered
use susanin.Prelude.{
  ℕ, ◌+◌, Bool, true, false, not, ◌&&◌, List, [], ◌∷◌, Option, none, some, ltb, if◌then◌else◌,
}
use susanin.Prelude.Int.{ℤ, pos, minus_one}
use susanin.Prelude.Text.{Text}
use susanin.Ros.Session.{Router, Session}
use susanin.Gc.Names.{
  Kind, test, ok, lazy_test_budget, lazy_ok_budget, mark_test_budget, mark_ok_budget, total_budget,
}
use susanin.Gc.Gate.{Script, Verdict, pass, skip, unsafe, normal_runtime_gate}
use susanin.Gc.FailSafe.{gc_fail_safe}
use susanin.Gc.Lazy.{GcStats, LazyCollect, collect_lazy_kind, process_lazy_kind}
use susanin.Gc.Marks.{MarkCollect, collect_mark_kind, process_mark_kind}

abbrev pub no_gc_stats : GcStats
no_gc_stats = record {
  lazy_removed = 0;
  marked_cleared = 0;
  actions = 0;
  scans_truncated = 0;
  skipped = false;
}

-- A stage of the run: whether it went on, the counters and the session.
abbrev pub Stage : Router → Type 0
Stage R = Bool × GcStats × Session R

abbrev pub count_truncated : Bool → GcStats → GcStats
count_truncated truncated stats =
    if truncated then record stats { scans_truncated = stats.scans_truncated + 1 } else stats

module _ {R : Router} where
  unfoldable pub and_also : Stage R → (GcStats → Session R → Stage R) → Stage R
  and_also (true, stats, s) next = next stats s
  and_also (false, stats, s) next = (false, stats, s)

  -- A second scan is made only when the first succeeded.
  unfoldable pub scan_both :
      {C : Type 0}
      → (Kind → Session R → Option C × Session R)
      → Session R
      → Option (C × C) × Session R
  scan_both collect s =
      let (a, s1) = collect test s in
      elim a [
        | none ↦ (none, s1)
        | some x ↦
            let (b, s2) = collect ok s1 in ((elim b [ none ↦ none | some y ↦ some (x, y) ]), s2)
      ]

  unfoldable pub process_lazy : Option (LazyCollect × LazyCollect) → GcStats → Session R → Stage R
  process_lazy none stats s = (false, stats, s)
  process_lazy (some (a, b)) stats s =
      and_also
        (process_lazy_kind a.items lazy_test_budget
          (count_truncated b.truncated (count_truncated a.truncated stats)) s)
        (λ st s1. process_lazy_kind b.items lazy_ok_budget st s1)

  unfoldable pub process_marks : Option (MarkCollect × MarkCollect) → GcStats → Session R → Stage R
  process_marks none stats s = (false, stats, s)
  process_marks (some (a, b)) stats s =
      and_also
        (process_mark_kind test a.items mark_test_budget
          (count_truncated b.truncated (count_truncated a.truncated stats)) s)
        (λ st s1. process_mark_kind ok b.items mark_ok_budget st s1)

  unfoldable pub lazy_stage : GcStats → Session R → Stage R
  unfolding scan_both process_lazy
  lazy_stage stats s = let (both, s1) = scan_both collect_lazy_kind s in process_lazy both stats s1

  unfoldable pub mark_stage : GcStats → Session R → Stage R
  unfolding scan_both process_marks
  mark_stage stats s = let (both, s1) = scan_both collect_mark_kind s in process_marks both stats s1

  -- The last test, `stats->actions > SUSANIN_GC_TOTAL_BUDGET`.
  unfoldable pub budget_stage : GcStats → Session R → Stage R
  budget_stage stats s = (not (ltb total_budget stats.actions), stats, s)

  unfoldable pub mutate : GcStats → Session R → Stage R
  unfolding and_also
  mutate stats s = and_also (and_also (lazy_stage stats s) mark_stage) budget_stage

  -- Every stage that fails ends in `gc_fail_safe`.
  unfoldable pub finish : Stage R → ℤ × GcStats × Session R
  finish (true, stats, s) = (pos 0, stats, s)
  finish (false, stats, s) = let (rc, _, s') = gc_fail_safe s in (rc, stats, s')

  unfoldable pub run_gated : Verdict → Session R → ℤ × GcStats × Session R
  run_gated pass s = finish (mutate no_gc_stats s)
  run_gated skip s = (pos 0, record no_gc_stats { skipped = true }, s)
  run_gated unsafe s = finish (false, no_gc_stats, s)

-- `renderer_build` as the run uses it: the desired scripts, or `none`.
abbrev pub Build : Router → Type 0
Build R = Session R → Option (List Script) × Session R

unfoldable pub gc_run_once : {R : Router} → Build R → Session R → ℤ × GcStats × Session R
gc_run_once build s =
    let (desired, s1) = build s in
    let (verdict, s2) = normal_runtime_gate desired s1 in run_gated verdict s2
