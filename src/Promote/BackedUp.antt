-- ===== src/Promote/BackedUp.antt =====
-- About what src/promote.c has in place before it touches a production script.
use susanin.Prelude.{All, ◌≡◌, true, false, List, Option, some, ◌⊎◌}
use susanin.Prelude.Int.{ℤ, minus_one}
use susanin.Prelude.Text.{Text}
use susanin.Ros.Session.{Router, Session}
use susanin.Ros.Session.Log.{SentOnly}
use susanin.Config.Options.{Settings}
use susanin.Renderer.Build.{RenderBundle, renderer_build}
use susanin.Promote.{Snapshot, managed_names, take_snapshot, pause_and_replace}
use susanin.Promote.Quiet.{sets_source, Quiet}
use susanin.Promote.Backups.{AllStaged, AllBackedUp}

-- The script and its scheduler were found, and the scheduler runs that script.
pub record Present (p : Snapshot) : Type 0 where
  pub prod_found : p.prod.found ≡ true
  pub sched_found : p.sched.found ≡ true
  pub own_event : p.sched.on_event ≡ p.names.prod_name

-- A run that ended before the backups, with -1: it set no source.
pub record Refused {R : Router} (s : Session R) (r : ℤ × Session R) : Type 0 where
  pub rc : r.0 ≡ minus_one
  pub untouched : SentOnly (λ words. sets_source words ≡ false) s r.1

-- A run that got as far as the backups: it read the staged scripts back as it rendered them, took the
-- snapshot right behind that and the backups right behind the snapshot; until then it set no source, and it
-- goes on behind them.
pub record BackedUp {R : Router} (read_file : Text → Option Text) (cfg : Settings) (s : Session R)
    (r : ℤ × Session R) : Type 1 where
  pub desired : RenderBundle
  pub rendered : (renderer_build read_file cfg s).0 ≡ some desired
  pub before : Session R
  pub stages : AllStaged managed_names desired.scripts (renderer_build read_file cfg s).1 before
  pub taken : List Snapshot
  pub snapshot : (take_snapshot managed_names before).0 ≡ some taken
  pub present : All Present taken
  pub after : Session R
  pub backups : AllBackedUp taken (take_snapshot managed_names before).1 after
  pub untouched : SentOnly (λ words. sets_source words ≡ false) s after
  pub goes_on : pause_and_replace taken desired.scripts after ≡ r

module _ {R : Router} where
  module _ (read_file : Text → Option Text) (cfg : Settings) (s0 : Session R) where
    abbrev Ends : ℤ × Session R → Type 1
    Ends r = Refused s0 r ⊎ BackedUp read_file cfg s0 r
