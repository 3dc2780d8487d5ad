-- ===== src/Gc/Spent.antt =====
-- What a stage of src/gc.c has spent of its budget.
use susanin.Prelude.{ℕ, ◌∙◌, ◌+◌, ◌≤◌, ◌≡◌, refl, Bool, true, arith}
use susanin.Ros.Session.{Router, Session}
use susanin.Ros.Session.Log.{Issued, Issued-trans}
use susanin.Gc.Commands.{IsGcCommand}
use susanin.Gc.Lazy.{GcStats}

-- From the counters `stats` and the session `s` a stage came to `out`: it sent allowed commands only,
-- `spent` of them changing the router at most, and counted each as an action. When it succeeded, each
-- action was also counted as a removed rule or as a cleared mark.
pub record Spent {R : Router} (k : ℕ) (stats : GcStats) (s : Session R)
    (out : Bool × GcStats × Session R) : Type 0 where
  pub spent : ℕ
  pub bounded : spent ≤ k
  pub counted : out.1.actions ≡ stats.actions + spent
  pub skip_kept : out.1.skipped ≡ stats.skipped
  pub verified :
      out.0 ≡ true
      → out.1.lazy_removed + out.1.marked_cleared
        ≡ stats.lazy_removed + stats.marked_cleared + spent
  pub issued : Issued IsGcCommand spent s out.2

module _ {R : Router} where
  -- Nothing spent yet, behind queries only.
  pub Spent-idle :
      (k : ℕ) (stats : GcStats) (s s' : Session R) (b : Bool)
      → Issued IsGcCommand 0 s s'
      → Spent k stats s (b, stats, s')
  Spent-idle k stats s s' b i = record {
    spent = 0;
    bounded = omega arith;
    counted = omega arith;
    skip_kept = refl;
    verified = λ e. omega arith;
    issued = i;
  }

  -- A stage behind queries.
  pub Spent-after :
      {k : ℕ} {stats : GcStats} {s s1 : Session R} (out : Bool × GcStats × Session R)
      → Issued IsGcCommand 0 s s1
      → Spent k stats s1 out
      → Spent k stats s out
  Spent-after out i p = record {
    spent = p.spent;
    bounded = p.bounded;
    counted = p.counted;
    skip_kept = p.skip_kept;
    verified = p.verified;
    issued = Issued-trans IsGcCommand 0 p.spent p.spent (omega arith) i p.issued;
  }

  -- A stage behind one that succeeded.
  pub Spent-trans :
      {k m : ℕ} {stats : GcStats} {s : Session R} (stats1 : GcStats) (s1 : Session R)
      (out : Bool × GcStats × Session R)
      → Spent k stats s (true, stats1, s1)
      → Spent m stats1 s1 out
      → Spent (k + m) stats s out
  Spent-trans {k} {m} {stats} {s} stats1 s1 out p q = record {
    spent = p.spent + q.spent;
    bounded = omega (arith, p.bounded, q.bounded);
    counted = omega (arith, p.counted, q.counted);
    skip_kept = q.skip_kept ∙ p.skip_kept;
    verified = λ e. omega (arith, p.verified refl, q.verified e);
    issued =
        Issued-trans IsGcCommand p.spent q.spent (p.spent + q.spent) (omega arith) p.issued
          q.issued;
  }

  pub Spent-weaken :
      {k m : ℕ} {stats : GcStats} {s : Session R} (out : Bool × GcStats × Session R)
      → k ≤ m
      → Spent k stats s out
      → Spent m stats s out
  Spent-weaken out h p = record {
    spent = p.spent;
    bounded = omega (arith, p.bounded);
    counted = p.counted;
    skip_kept = p.skip_kept;
    verified = p.verified;
    issued = p.issued;
  }
