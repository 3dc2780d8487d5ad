-- ===== src/Gc/Run/Rendered.antt =====
-- `susanin_gc_run_once`, src/gc.c, with the scripts of `renderer_build`, src/renderer.c.
use susanin.Prelude.{◌≡◌, true, false, List, [], ◌∷◌, Option, ◌⊎◌, map_some}
use susanin.Prelude.Int.{ℤ, is_neg}
use susanin.Prelude.Text.{Text}
use susanin.Ros.Session.{Router, Session}
use susanin.Ros.Session.Log.{Issued}
use susanin.Config.Options.{Settings}
use susanin.Gc.Commands.{IsGcCommand, inquiry}
use susanin.Gc.Gate.{Script}
use susanin.Gc.Lazy.{GcStats}
use susanin.Gc.Run.{Build, gc_run_once}
use susanin.Gc.Run.Endings.{Bounded, FailedSafe, gc_run_once-Bounded, gc_run_once-FailedSafe}
use susanin.Gc.Run.Verified.{Collected, gc_run_once-Collected}
use susanin.Gc.Run.Owned.{Owned, gc_run_once-Owned}
use susanin.Renderer.Build.{RenderedScript, renderer_build}
use susanin.Renderer.Build.Queries.{Issued-renderer_build}

-- The sizes and fingerprints of a bundle, which the ownership gate compares.
unfoldable pub wanted_scripts : List RenderedScript → List Script
wanted_scripts [] = []
wanted_scripts (r ∷ rs) = record { bytes = r.bytes; fp = r.fp } ∷ wanted_scripts rs

unfoldable pub rendered_scripts : {R : Router} → (Text → Option Text) → Settings → Build R
unfolding wanted_scripts
rendered_scripts read_file cfg s =
    let (bundle, s') = renderer_build read_file cfg s in
    (map_some (λ b. wanted_scripts b.scripts) bundle, s')

-- A collection run of the program.
unfoldable pub collection_run :
    {R : Router} → (Text → Option Text) → Settings → Session R → ℤ × GcStats × Session R
unfolding rendered_scripts
collection_run read_file cfg s = gc_run_once (rendered_scripts read_file cfg) s

module _ {R : Router} (read_file : Text → Option Text) (cfg : Settings) where
  rendered-quiet : (s : Session R) → Issued IsGcCommand 0 s (rendered_scripts read_file cfg s).1
  unfolding rendered_scripts
  rendered-quiet s = Issued-renderer_build read_file cfg IsGcCommand (λ words h. inquiry h) s

  -- A run that reports success sent allowed commands only, changed the router at most as often as it counts
  -- actions, at most twelve times, counts each action either as a removed rule or as a cleared mark, and
  -- changed nothing when it counts as skipped. Unless it counts as skipped, the scripts were rendered, right
  -- behind that the gate was open, right behind that the lazy rules of both kinds were scanned and dealt
  -- with, each removal behind two complete counts of 0 or of a malformed rule and followed by a complete
  -- answer without its id, and right behind that the connection marks of both kinds, each attempt behind
  -- two complete counts of 0, and those of a kind followed by a complete answer without their ids.
  pub collection_run-Bounded :
      (s s' : Session R) (rc : ℤ) (stats : GcStats)
      → collection_run read_file cfg s ≡ (rc, stats, s')
      → is_neg rc ≡ false
      → Bounded stats s s'
        × ((stats.skipped ≡ true) ⊎ Collected (rendered_scripts read_file cfg) s s')
  unfolding collection_run
  collection_run-Bounded s s' rc stats h n = (
    gc_run_once-Bounded (rendered_scripts read_file cfg) rendered-quiet s s' rc stats h n,
    gc_run_once-Collected (rendered_scripts read_file cfg) s s' rc stats h n,
  )

  -- A run that reports failure ended with the fail-safe fallback, which it entered after at most twelve
  -- changes, all of them allowed.
  pub collection_run-FailedSafe :
      (s s' : Session R) (rc : ℤ) (stats : GcStats)
      → collection_run read_file cfg s ≡ (rc, stats, s')
      → is_neg rc ≡ true
      → FailedSafe s s'
  unfolding collection_run
  collection_run-FailedSafe = gc_run_once-FailedSafe (rendered_scripts read_file cfg) rendered-quiet

  -- A run either changes nothing, or the scripts could be rendered and the router had shown every
  -- production script once, valid, and with the rendered source, before anything was changed.
  pub collection_run-Owned :
      (s : Session R)
      → Issued IsGcCommand 0 s (collection_run read_file cfg s).2
        ⊎ Owned (rendered_scripts read_file cfg) s
  unfolding collection_run
  collection_run-Owned = gc_run_once-Owned (rendered_scripts read_file cfg) rendered-quiet
