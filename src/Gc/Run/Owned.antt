-- ===== src/Gc/Run/Owned.antt =====
-- About `susanin_gc_run_once`, src/gc.c, and the ownership of the production scripts.
use susanin.Prelude.{◌≡◌, refl, List, some, ◌⊎◌, inl, inr, Option-cases, arith}
use susanin.Ros.Session.{Router, Session}
use susanin.Ros.Session.Log.{Issued, Issued-trans}
use susanin.Gc.Names.{prod_names}
use susanin.Gc.Commands.{IsGcCommand}
use susanin.Gc.Gate.{Script, skip, normal_runtime_gate}
use susanin.Gc.Gate.Pass.{ScriptsExact, normal_runtime_gate-ScriptsExact}
use susanin.Gc.Gate.Safety.{Issued-normal_runtime_gate}
use susanin.Gc.Run.{Build, run_gated, gc_run_once}

-- The desired scripts could be rendered, and the router, asked in turn, showed each of them.
pub record Owned {R : Router} (build : Build R) (s : Session R) : Type 0 where
  pub desired : List Script
  pub rendered : (build s).0 ≡ some desired
  pub shown_by : Session R
  pub exact : ScriptsExact prod_names desired (build s).1 shown_by

module _ {R : Router} (build : Build R)
    (quiet : (s : Session R) → Issued IsGcCommand 0 s (build s).1) where
  skipped_run :
      (s : Session R)
      → (normal_runtime_gate (build s).0 (build s).1).0 ≡ skip
      → Issued IsGcCommand 0 s (gc_run_once build s).2
  unfolding gc_run_once run_gated
  skipped_run s e = rw e (
      Issued-trans IsGcCommand 0 0 0 (omega arith) (quiet s)
        (Issued-normal_runtime_gate (build s).0 (build s).1))

  -- When the renderer only queries the router, a run either changes nothing, or the router had shown
  -- every production script once, valid, and with the desired source, before anything was changed.
  pub gc_run_once-Owned :
      (s : Session R) → Issued IsGcCommand 0 s (gc_run_once build s).2 ⊎ Owned build s
  gc_run_once-Owned s = elim (Option-cases (build s).0) [
    | inl e ↦ inl (skipped_run s (unfold normal_runtime_gate in rw e refl))
    | inr (ds, e) ↦ elim (normal_runtime_gate-ScriptsExact ds (build s).1) [
      | inl k ↦ inl (skipped_run s (rw e k))
      | inr (s1, x) ↦ inr (record { desired = ds; rendered = e; shown_by = s1; exact = x })
    ]
  ]
