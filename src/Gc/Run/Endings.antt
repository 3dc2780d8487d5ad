-- ===== src/Gc/Run/Endings.antt =====
-- About the endings of `susanin_gc_run_once`, src/gc.c.
use susanin.Prelude.{◌+◌, ◌≤◌, ◌≡◌, refl, sym, ap, true, false, not, ltb}
use susanin.Prelude.{arith}
use mathlib.Core.Path.{subst}
use susanin.Prelude.Int.{ℤ, is_neg}
use susanin.Ros.Session.{Router, Session}
use susanin.Ros.Session.Log.{Issued, Issued-refl, Issued-trans, Issued-weaken}
use susanin.Gc.Names.{total_budget}
use susanin.Gc.Commands.{IsGcCommand}
use susanin.Gc.Spent.{Spent, Spent-idle}
use susanin.Gc.Gate.{Verdict, pass, skip, unsafe, normal_runtime_gate}
use susanin.Gc.Gate.Safety.{Issued-normal_runtime_gate}
use susanin.Gc.FailSafe.{gc_fail_safe}
use susanin.Gc.Lazy.{GcStats}
use susanin.Gc.Run.{
  no_gc_stats, Stage, and_also, lazy_stage, mark_stage, budget_stage, mutate, finish, run_gated,
  Build, gc_run_once,
}
use susanin.Gc.Run.Bounded.{Spent-families, Spent-mutate}

within : (stats : GcStats) → stats.actions ≤ 12 → not (ltb total_budget stats.actions) ≡ true
within stats h = ground arith

-- A run that reports success: its commands changed the router no more often than it counts actions,
-- there are at most twelve, each is counted as a removed rule or as a cleared mark, and a skipped run has none.
pub record Bounded {R : Router} (stats : GcStats) (s s' : Session R) : Type 0 where
  pub few : stats.actions ≤ total_budget
  pub all_counted : stats.lazy_removed + stats.marked_cleared ≡ stats.actions
  pub skip_is_idle : stats.skipped ≡ true → stats.actions ≡ 0
  pub issued : Issued IsGcCommand stats.actions s s'

-- A run that reports failure: it ended with the fail-safe fallback, entered after at most twelve changes.
pub record FailedSafe {R : Router} (s s' : Session R) : Type 0 where
  pub at : Session R
  pub entered : Issued IsGcCommand total_budget s at
  pub fell_back : s' ≡ (gc_fail_safe at).2

passes :
    {R : Router} {s : Session R} (out : Stage R)
    → Spent 12 no_gc_stats s out
    → and_also out budget_stage ≡ out
unfolding and_also budget_stage
passes (true, stats, s) p = rw (within stats (omega (arith, p.counted, p.bounded))) refl
passes (false, stats, s) p = refl

module _ {R : Router} where
  -- The last test of a run, on the total of the actions, never fails it: the four family budgets
  -- already keep the total within twelve.
  pub budget_stage-passes :
      (s : Session R) → mutate no_gc_stats s ≡ and_also (lazy_stage no_gc_stats s) mark_stage
  unfolding mutate
  budget_stage-passes s =
      passes (and_also (lazy_stage no_gc_stats s) mark_stage) (Spent-families no_gc_stats s)

  Bounded-pass :
      {s : Session R} (out : Stage R)
      → out.0 ≡ true
      → Spent 12 no_gc_stats s out
      → Bounded out.1 s out.2
  Bounded-pass out e p = record {
    few = omega (arith, p.counted, p.bounded);
    all_counted = omega (arith, p.counted, p.verified e);
    skip_is_idle = λ k. cc (p.skip_kept);
    issued = Issued-weaken IsGcCommand p.spent out.1.actions (omega (arith, p.counted)) p.issued;
  }

  Bounded-finish :
      {s : Session R} (out : Stage R) (s' : Session R) (rc : ℤ) (stats : GcStats)
      → Spent 12 no_gc_stats s out
      → finish out ≡ (rc, stats, s')
      → is_neg rc ≡ false
      → Bounded stats s s'
  unfolding finish gc_fail_safe
  Bounded-finish {s} (true, st, t) s' rc stats p h n =
      subst (λ r. Bounded r.1 s r.2) h (Bounded-pass (true, st, t) refl p)
  Bounded-finish (false, st, t) s' rc stats p h n = ground arith

  FailedSafe-finish :
      {s : Session R} (out : Stage R) (s' : Session R) (rc : ℤ) (stats : GcStats)
      → Spent 12 no_gc_stats s out
      → finish out ≡ (rc, stats, s')
      → is_neg rc ≡ true
      → FailedSafe s s'
  unfolding finish
  FailedSafe-finish (true, st, t) s' rc stats p h n = ground arith
  FailedSafe-finish (false, st, t) s' rc stats p h n = record {
    at = t;
    entered = Issued-weaken IsGcCommand p.spent 12 p.bounded p.issued;
    fell_back = sym (ap (λ r. r.2) h);
  }

  Bounded-gated :
      (v : Verdict) (s s' : Session R) (rc : ℤ) (stats : GcStats)
      → run_gated v s ≡ (rc, stats, s')
      → is_neg rc ≡ false
      → Bounded stats s s'
  unfolding run_gated
  Bounded-gated pass s s' rc stats h n =
      Bounded-finish (mutate no_gc_stats s) s' rc stats (Spent-mutate no_gc_stats s) h n
  Bounded-gated skip s s' rc stats h n =
      subst (λ r. Bounded r.1 s r.2) h
        (record {
          few = omega arith;
          all_counted = refl;
          skip_is_idle = λ k. refl;
          issued = Issued-refl IsGcCommand 0 s;
        })
  Bounded-gated unsafe s s' rc stats h n =
      Bounded-finish (false, no_gc_stats, s) s' rc stats
        (Spent-idle 12 no_gc_stats s s false (Issued-refl IsGcCommand 0 s)) h n

  FailedSafe-gated :
      (v : Verdict) (s s' : Session R) (rc : ℤ) (stats : GcStats)
      → run_gated v s ≡ (rc, stats, s')
      → is_neg rc ≡ true
      → FailedSafe s s'
  unfolding run_gated
  FailedSafe-gated pass s s' rc stats h n =
      FailedSafe-finish (mutate no_gc_stats s) s' rc stats (Spent-mutate no_gc_stats s) h n
  FailedSafe-gated skip s s' rc stats h n = ground arith
  FailedSafe-gated unsafe s s' rc stats h n =
      FailedSafe-finish (false, no_gc_stats, s) s' rc stats
        (Spent-idle 12 no_gc_stats s s false (Issued-refl IsGcCommand 0 s)) h n

  module _ (build : Build R) (quiet : (s : Session R) → Issued IsGcCommand 0 s (build s).1) where
    Issued-gate :
        (s : Session R) → Issued IsGcCommand 0 s (normal_runtime_gate (build s).0 (build s).1).1
    Issued-gate s =
        Issued-trans IsGcCommand 0 0 0 (omega arith) (quiet s)
          (Issued-normal_runtime_gate (build s).0 (build s).1)

    -- When the renderer only queries the router, a run that reports success sent allowed commands only,
    -- changed the router at most as often as it counts actions, at most twelve times, counts each action
    -- as a removed rule or as a cleared mark, and a skipped run changed nothing.
    pub gc_run_once-Bounded :
        (s s' : Session R) (rc : ℤ) (stats : GcStats)
        → gc_run_once build s ≡ (rc, stats, s')
        → is_neg rc ≡ false
        → Bounded stats s s'
    unfolding gc_run_once
    gc_run_once-Bounded s s' rc stats h n =
        let (v, t) = normal_runtime_gate (build s).0 (build s).1 in
        let b = Bounded-gated v t s' rc stats h n in
        record {
          few = b.few;
          all_counted = b.all_counted;
          skip_is_idle = b.skip_is_idle;
          issued =
              Issued-trans IsGcCommand 0 stats.actions stats.actions (omega arith) (Issued-gate s)
                b.issued;
        }

    -- When the renderer only queries the router, a run that reports failure ended with the fail-safe
    -- fallback, which it entered after at most twelve changes, all of them allowed.
    pub gc_run_once-FailedSafe :
        (s s' : Session R) (rc : ℤ) (stats : GcStats)
        → gc_run_once build s ≡ (rc, stats, s')
        → is_neg rc ≡ true
        → FailedSafe s s'
    unfolding gc_run_once
    gc_run_once-FailedSafe s s' rc stats h n =
        let (v, t) = normal_runtime_gate (build s).0 (build s).1 in
        let f = FailedSafe-gated v t s' rc stats h n in
        record {
          at = f.at;
          entered =
              Issued-trans IsGcCommand 0 total_budget total_budget (omega arith) (Issued-gate s)
                f.entered;
          fell_back = f.fell_back;
        }
