-- ===== src/Promote/Sources.antt =====
-- About a promotion of src/promote.c that succeeds.
use susanin.Prelude.{ℕ, ◌≡◌, true, false, List, [], ◌∷◌, Option, inl, inr, Bool-cases}
use susanin.Prelude.Int.{ℤ, is_neg}
use susanin.Prelude.Text.{Text}
use susanin.Ros.Session.{Router, Session}
use susanin.Config.Options.{Settings}
use susanin.StateCleanup.Entry.{cleanup_dev2_runtime}
use susanin.Renderer.Build.{RenderedScript}
use susanin.Promote.{
  Snapshot, Managed, managed_names, set_script_source, put_source, pause_schedulers, wait_jobs_idle,
  restore_scheduler_states, remove_stages,
}
use susanin.Promote.Shown.{Verified, verify_source-Verified}
use susanin.Promote.BackedUp.{BackedUp}

-- The sources, one after the other: each was set without a failure and right behind that read back.
pub data AllPut {R : Router}
    : List Snapshot → List RenderedScript → Session R → Session R → Type 1 where
  none_put : {ds : List RenderedScript} {s : Session R} → AllPut [] ds s s
  put_too :
      {p : Snapshot} {ps : List Snapshot} {d : RenderedScript} {ds : List RenderedScript}
      {s s1 s' : Session R}
      → is_neg (set_script_source s p.prod.id d.source).0 ≡ false
      → Verified p.names.prod_name d.fp d.bytes (set_script_source s p.prod.id d.source).1 s1
      → AllPut ps ds s1 s'
      → AllPut (p ∷ ps) (d ∷ ds) s s'

-- What follows the backups `s` of a snapshot in a promotion that succeeds.
pub record Replaced {R : Router} (ps : List Snapshot) (ds : List RenderedScript) (s : Session R)
    (r : ℤ × Session R) : Type 1 where
  pub paused : (pause_schedulers ps s).0 ≡ true
  pub idle : (wait_jobs_idle (pause_schedulers ps s).1).0 ≡ true
  pub changed : Session R
  pub sources : AllPut ps ds (wait_jobs_idle (pause_schedulers ps s).1).1 changed
  pub cleaned : is_neg (cleanup_dev2_runtime changed).0 ≡ false
  pub resumed :
      remove_stages managed_names (restore_scheduler_states ps (cleanup_dev2_runtime changed).2)
      ≡ r.1

-- A promotion as it succeeds.
pub record Promoted {R : Router} (read_file : Text → Option Text) (cfg : Settings) (s : Session R)
    (r : ℤ × Session R) : Type 1 where
  pub backed : BackedUp read_file cfg s r
  pub replaced : Replaced backed.taken backed.desired.scripts backed.after r

module _ {R : Router} where
  pub put_source-Verified :
      (s : Session R) (m : Managed) (id source fp : Text) (bytes : ℕ)
      → (put_source s m id source fp bytes).0 ≡ true
      → (is_neg (set_script_source s id source).0 ≡ false)
        × Verified m.prod_name fp bytes
            (set_script_source s id source).1
            (put_source s m id source fp bytes).1
  unfolding put_source
  put_source-Verified s m id source fp bytes h =
      let set = set_script_source s id source in
      elim (Bool-cases (is_neg set.0)) [
        | inl e ↦ cc (rw (e, put_source) at h)
        | inr e ↦ (
          e,
          rw (e, put_source)
              (verify_source-Verified set.1 m.prod_name fp bytes (rw (e, put_source) at h)),
        )
      ]
