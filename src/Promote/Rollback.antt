-- ===== src/Promote/Rollback.antt =====
-- `rollback_run` of src/promote.c.
use susanin.Prelude.{
  All, ◌≡◌, Bool, true, false, not, ◌||◌, List, [], ◌∷◌, Option, none, some, map_some,
  if◌then◌else◌,
}
use susanin.Prelude.Int.{ℤ, pos, minus_one, is_neg}
use susanin.Ros.Session.{Router, Session}
use susanin.StateCleanup.Entry.{cleanup_dev2_runtime}
use susanin.StateCleanup.Disable.{disable_adaptive_mangle}
use susanin.Promote.{
  Managed, ScriptObj, Snapshot, managed_names, script_lookup, scheduler_lookup, set_script_source,
  put_source, pause_schedulers, wait_jobs_idle, restore_scheduler_states,
}
use susanin.Promote.Shown.{Verified}

-- A production script, its scheduler and its backup as they were found.
pub record Restore : Type 0 where
  pub now : Snapshot
  pub backup : ScriptObj

unfoldable pub snapshots : List Restore → List Snapshot
snapshots [] = []
snapshots (r ∷ rs) = r.now ∷ snapshots rs

module _ {R : Router} where
  -- The prerequisites; none when one of them is missing.
  unfoldable pub find_backups : List Managed → Session R → Option (List Restore) × Session R
  unfolding script_lookup scheduler_lookup
  find_backups [] s = (some [], s)
  find_backups (m ∷ ms) s =
      let (rc1, prod, s1) = script_lookup s m.prod_name in
      let (rc2, backup, s2) = script_lookup s1 m.backup_name in
      let (rc3, sched, s3) = scheduler_lookup s2 m.prod_name in
      let (more, s4) = find_backups ms s3 in
      if is_neg rc1 || not prod.found
      then (none, s1)
      else if is_neg rc2 || not backup.found || backup.invalid
      then (none, s2)
      else if is_neg rc3 || not sched.found
      then (none, s3)
      else (
        map_some
            (λ rs.
              (record { now = record { names = m; prod = prod; sched = sched }; backup = backup })
              ∷ rs)
            more,
        s4,
      )

  -- The backup of one script is put back and read back.
  unfoldable pub put_back : Restore → Session R → Bool × Session R
  unfolding put_source
  put_back r s = put_source s r.now.names r.now.prod.id r.backup.source r.backup.fp r.backup.bytes

  -- The loop behind a cleanup that failed: it goes on whatever comes of a script.
  unfoldable pub put_back_each : List Restore → Session R → Session R
  unfolding put_back
  put_back_each [] s = s
  put_back_each (r ∷ rs) s = put_back_each rs (put_back r s).1

  unfoldable pub put_back_all : List Restore → Session R → Bool × Session R
  unfolding put_back
  put_back_all [] s = (true, s)
  put_back_all (r ∷ rs) s =
      let (good, s') = put_back r s in
      let more = put_back_all rs s' in if good then more else (false, s')

  -- Behind the pause.
  unfoldable pub reset_and_restore : List Restore → Session R → ℤ × Session R
  unfolding put_back_each put_back_all restore_scheduler_states snapshots
  reset_and_restore rs s =
      let (rc, _, s1) = cleanup_dev2_runtime s in
      let (good, s2) = put_back_all rs s1 in
      if is_neg rc
      then (minus_one, put_back_each rs (disable_adaptive_mangle s1).1)
      else if good
      then (pos 0, restore_scheduler_states (snapshots rs) s2)
      else (minus_one, (disable_adaptive_mangle s2).1)

  unfoldable pub pause_and_restore : List Restore → Session R → ℤ × Session R
  unfolding pause_schedulers wait_jobs_idle restore_scheduler_states reset_and_restore snapshots
  pause_and_restore rs s =
      let (paused, s1) = pause_schedulers (snapshots rs) s in
      let (idle, s2) = wait_jobs_idle s1 in
      let done = reset_and_restore rs s2 in
      if not paused
      then (minus_one, restore_scheduler_states (snapshots rs) s1)
      else if not idle
      then (minus_one, restore_scheduler_states (snapshots rs) s2)
      else done

  unfoldable pub rollback_run : Session R → ℤ × Session R
  unfolding find_backups pause_and_restore managed_names
  rollback_run s =
      let (found, s1) = find_backups managed_names s in
      elim found [ none ↦ (minus_one, s1) | some rs ↦ pause_and_restore rs s1 ]

-- The backups, one after the other: each was put back without a failure and right behind that read back.
pub data AllBack {R : Router} : List Restore → Session R → Session R → Type 1 where
  none_back : {s : Session R} → AllBack [] s s
  back_too :
      {r : Restore} {rs : List Restore} {s s1 s' : Session R}
      → is_neg (set_script_source s r.now.prod.id r.backup.source).0 ≡ false
      → Verified r.now.names.prod_name r.backup.fp r.backup.bytes
          (set_script_source s r.now.prod.id r.backup.source).1
          s1
      → AllBack rs s1 s'
      → AllBack (r ∷ rs) s s'

-- The production script was found, and its backup was found and is not invalid.
pub record Usable (r : Restore) : Type 0 where
  pub prod_found : r.now.prod.found ≡ true
  pub backup_found : r.backup.found ≡ true
  pub backup_valid : r.backup.invalid ≡ false

-- A rollback as it succeeds.
pub record RolledBack {R : Router} (s : Session R) (r : ℤ × Session R) : Type 1 where
  pub found : List Restore
  pub prerequisites : (find_backups managed_names s).0 ≡ some found
  pub usable : All Usable found
  pub paused : (pause_schedulers (snapshots found) (find_backups managed_names s).1).0 ≡ true
  pub quiet : Session R
  pub idle :
      (wait_jobs_idle (pause_schedulers (snapshots found) (find_backups managed_names s).1).1).0
      ≡ true
  pub idle_then :
      (wait_jobs_idle (pause_schedulers (snapshots found) (find_backups managed_names s).1).1).1
      ≡ quiet
  pub cleaned : is_neg (cleanup_dev2_runtime quiet).0 ≡ false
  pub changed : Session R
  pub sources : AllBack found (cleanup_dev2_runtime quiet).2 changed
  pub resumed : restore_scheduler_states (snapshots found) changed ≡ r.1
