-- ===== src/Promote.antt =====
-- src/promote.c: the staged sources made the production sources, with backups and a rollback. What the
-- program prints is left out, and allocation is taken to succeed.
pub mod Quiet
pub mod Shown
pub mod Backups
pub mod BackedUp
pub mod Sources
pub mod Rollback
use susanin.Prelude.{
  ℕ, zero, suc, ◌+◌, ◌%◌, ◌^◌, Bool, true, false, not, ◌&&◌, ◌||◌, List, [], ◌∷◌, ◌++◌, Option,
  none, some, ◌==◌, length, any, map_some, if◌then◌else◌,
}
use susanin.Prelude.Int.{ℤ, pos, minus_one, is_neg, is_zero}
use susanin.Prelude.Text.{Text, codes, str_eq, copy_to}
use susanin.Prelude.Decimal.{is_empty}
use susanin.Ros.Sentence.{Sentence, is_reply, get_attr}
use susanin.Ros.Command.{Callback}
use susanin.Ros.Session.{Router, Session, ros_command, sleep}
use susanin.Fingerprint.{fingerprint_hex}
use susanin.Config.Options.{Settings}
use susanin.StateCleanup.Match.{attr_true}
use susanin.StateCleanup.Entry.{cleanup_dev2_runtime}
use susanin.StateCleanup.Disable.{disable_adaptive_mangle}
use susanin.Renderer.Build.{RenderedScript, RenderBundle, renderer_build}

-- One index of the arrays of names.
pub record Managed : Type 0 where
  pub prod_name : Text
  pub stage_name : Text
  pub backup_name : Text

unfoldable pub managed_names : List Managed
unfolding codes
managed_names =
    (record {
      prod_name = codes "auto-awg-health";
      stage_name = codes "susanin-stage-health";
      backup_name = codes "susanin-backup-health";
    })
    ∷ (record {
      prod_name = codes "auto-awg-fast";
      stage_name = codes "susanin-stage-fast";
      backup_name = codes "susanin-backup-fast";
    })
    ∷ (record {
      prod_name = codes "auto-awg-detect";
      stage_name = codes "susanin-stage-detect";
      backup_name = codes "susanin-backup-detect";
    })
    ∷ (record {
      prod_name = codes "auto-awg-judge";
      stage_name = codes "susanin-stage-judge";
      backup_name = codes "susanin-backup-judge";
    })
    ∷ []

-- `script_obj_t`
pub record ScriptObj : Type 0 where
  pub id : Text
  pub name : Text
  pub source : Text
  pub bytes : ℕ
  pub fp : Text
  pub invalid : Bool
  pub found : Bool

abbrev pub no_script : ScriptObj
no_script = record {
  id = [];
  name = [];
  source = [];
  bytes = 0;
  fp = [];
  invalid = false;
  found = false;
}

-- `scheduler_obj_t`
pub record SchedulerObj : Type 0 where
  pub id : Text
  pub name : Text
  pub on_event : Text
  pub disabled : Bool
  pub found : Bool

abbrev pub no_scheduler : SchedulerObj
no_scheduler = record { id = []; name = []; on_event = []; disabled = false; found = false }

-- The id of the object of that name that a reply shows.
unfoldable pub named_id : Text → Sentence → Option Text
named_id wanted s = elim (get_attr s (codes "name")) [
  | none ↦ none
  | some name ↦ elim (get_attr s (codes ".id")) [
    | none ↦ none
    | some id ↦
        if not (is_reply s (codes "!re")) || not (str_eq name wanted) || is_empty id
        then none
        else some id
  ]
]

-- An attribute, or an empty text.
unfoldable pub attr_text : Option Text → Text
attr_text none = []
attr_text (some t) = t

unfoldable pub script_lookup_cb : Text → Callback ScriptObj
unfolding named_id attr_text
script_lookup_cb wanted s out = elim (named_id wanted s) [
  | none ↦ (pos 0, out)
  | some id ↦
      let source = attr_text (get_attr s (codes "source")) in
      (
        pos 0,
        record {
          id = copy_to 64 id;
          name = copy_to 128 wanted;
          source = source;
          bytes = length source;
          fp = fingerprint_hex source;
          invalid = attr_true (get_attr s (codes "invalid"));
          found = true;
        },
      )
]

unfoldable pub scheduler_lookup_cb : Text → Callback SchedulerObj
unfolding named_id attr_text
scheduler_lookup_cb wanted s out = elim (named_id wanted s) [
  | none ↦ (pos 0, out)
  | some id ↦ (
    pos 0,
    record {
      id = copy_to 64 id;
      name = copy_to 128 wanted;
      on_event = copy_to 128 (attr_text (get_attr s (codes "on-event")));
      disabled = attr_true (get_attr s (codes "disabled"));
      found = true;
    },
  )
]

abbrev pub script_scan_words : List Text
script_scan_words =
    codes "/system/script/print" ∷ codes "=.proplist=.id,name,source,invalid,comment" ∷ []

abbrev pub scheduler_scan_words : List Text
scheduler_scan_words =
    codes "/system/scheduler/print" ∷ codes "=.proplist=.id,name,on-event,disabled,interval" ∷ []

abbrev pub job_words : List Text
job_words = codes "/system/script/job/print" ∷ codes "=.proplist=script" ∷ []

abbrev pub source_words : Text → Text → List Text
source_words id source =
    codes "/system/script/set" ∷ (codes "=.id=" ++ id) ∷ (codes "=source=" ++ source) ∷ []

abbrev pub drop_words : Text → List Text
drop_words id = codes "/system/script/remove" ∷ copy_to 96 (codes "=.id=" ++ id) ∷ []

abbrev pub inert_words : Text → Text → Text → List Text
inert_words name source comment =
    codes "/system/script/add"
    ∷ (codes "=name=" ++ name)
    ∷ (codes "=source=" ++ source)
    ∷ (codes "=comment=" ++ comment)
    ∷ []

abbrev pub state_words : Text → Bool → List Text
state_words id disabled =
    codes "/system/scheduler/set"
    ∷ copy_to 96 (codes "=.id=" ++ id)
    ∷ copy_to 32 (codes "=disabled=" ++ (if disabled then codes "true" else codes "false"))
    ∷ []

-- The comment of a backup, in its buffer of 192 bytes.
unfoldable pub backup_comment : Text → Text → Text
unfolding codes
backup_comment name fp = copy_to 192 (
    codes "SUSANIN:v0.12.0 rollback backup of "
    ++ name
    ++ codes " fp="
    ++ fp
    ++ codes "; DO NOT RUN")

unfoldable pub is_same : Text → ℕ → ScriptObj → Bool
is_same fp bytes o = o.found && not o.invalid && o.bytes == bytes && str_eq o.fp fp

-- A job of one of the production scripts counts as active.
unfoldable pub jobs_cb : Callback ℕ
unfolding managed_names
jobs_cb s active = elim (get_attr s (codes "script")) [
  | none ↦ (pos 0, active)
  | some script ↦
      if is_reply s (codes "!re") && any (λ m. str_eq script m.prod_name) managed_names
      then (pos 0, (active + 1) % 2 ^ 32)
      else (pos 0, active)
]

-- A production script and its scheduler as they were found.
pub record Snapshot : Type 0 where
  pub names : Managed
  pub prod : ScriptObj
  pub sched : SchedulerObj

module _ {R : Router} where
  unfoldable pub script_lookup : Session R → Text → ℤ × ScriptObj × Session R
  unfolding script_lookup_cb
  script_lookup s name = ros_command s script_scan_words (some (script_lookup_cb name)) no_script

  -- The loop of `script_lookup_retry`; `none` is its -1.
  unfoldable pub script_loop : ℕ → Session R → Text → Option ScriptObj × Session R
  unfolding script_lookup
  script_loop zero s name = (none, s)
  script_loop (suc n) s name =
      let (rc, o, s') = script_lookup s name in
      let more = script_loop n (sleep s') name in
      if is_zero rc && o.found then (some o, s') else more

  unfoldable pub script_lookup_retry : Session R → Text → Option ScriptObj × Session R
  unfolding script_loop
  script_lookup_retry s name = script_loop 15 s name

  unfoldable pub scheduler_lookup : Session R → Text → ℤ × SchedulerObj × Session R
  unfolding scheduler_lookup_cb
  scheduler_lookup s name =
      ros_command s scheduler_scan_words (some (scheduler_lookup_cb name)) no_scheduler

  -- A command without a callback.
  unfoldable pub send : Session R → List Text → ℤ × Session R
  send s words = let (rc, _, s') = ros_command s words none tt in (rc, s')

  unfoldable pub set_scheduler_disabled : Session R → Text → Bool → ℤ × Session R
  unfolding send
  set_scheduler_disabled s id disabled = send s (state_words id disabled)

  unfoldable pub set_script_source : Session R → Text → Text → ℤ × Session R
  unfolding send
  set_script_source s id source = send s (source_words id source)

  unfoldable pub remove_script_name : Session R → Text → ℤ × Session R
  unfolding script_lookup send
  remove_script_name s name =
      let (rc, o, s1) = script_lookup s name in
      let removed = send s1 (drop_words o.id) in
      if is_neg rc then (minus_one, s1) else if not o.found then (pos 0, s1) else removed

  unfoldable pub add_inert_script : Session R → Text → Text → Text → ℤ × Session R
  unfolding send
  add_inert_script s name source comment = send s (inert_words name source comment)

  -- `true` is 0.
  unfoldable pub verify_source : Session R → Text → Text → ℕ → Bool × Session R
  unfolding script_lookup_retry is_same
  verify_source s name fp bytes =
      let (found, s') = script_lookup_retry s name in
      ((elim found [ none ↦ false | some o ↦ is_same fp bytes o ]), s')

  -- The arrays of names and of scripts have the same length.
  unfoldable pub verify_stage : List Managed → List RenderedScript → Session R → Bool × Session R
  unfolding verify_source
  verify_stage [] scripts s = (true, s)
  verify_stage (m ∷ ms) [] s = (false, s)
  verify_stage (m ∷ ms) (script ∷ scripts) s =
      let (good, s') = verify_source s m.stage_name script.fp script.bytes in
      let more = verify_stage ms scripts s' in if good then more else (false, s')

  -- The loop of `wait_jobs_idle`.
  unfoldable pub idle_loop : ℕ → Session R → Bool × Session R
  unfolding jobs_cb
  idle_loop zero s = (false, s)
  idle_loop (suc n) s =
      let (rc, active, s') = ros_command s job_words (some jobs_cb) 0 in
      let more = idle_loop n (sleep s') in
      if is_neg rc then (false, s') else if active == 0 then (true, s') else more

  unfoldable pub wait_jobs_idle : Session R → Bool × Session R
  unfolding idle_loop
  wait_jobs_idle s = idle_loop 50 s

  -- The schedulers of a snapshot were all found.
  unfoldable pub restore_scheduler_states : List Snapshot → Session R → Session R
  unfolding set_scheduler_disabled
  restore_scheduler_states [] s = s
  restore_scheduler_states (p ∷ ps) s =
      restore_scheduler_states ps (set_scheduler_disabled s p.sched.id p.sched.disabled).1

  -- One backup: the old one is removed, the new one added and read back.
  unfoldable pub create_backup : Snapshot → Session R → Bool × Session R
  unfolding remove_script_name add_inert_script verify_source backup_comment
  create_backup p s =
      let comment = backup_comment p.names.prod_name p.prod.fp in
      let (removed, s1) = remove_script_name s p.names.backup_name in
      let (added, s2) = add_inert_script s1 p.names.backup_name p.prod.source comment in
      let verified = verify_source s2 p.names.backup_name p.prod.fp p.prod.bytes in
      if is_neg removed then (false, s1) else if is_neg added then (false, s2) else verified

  unfoldable pub create_backups : List Snapshot → Session R → Bool × Session R
  unfolding create_backup
  create_backups [] s = (true, s)
  create_backups (p ∷ ps) s =
      let (good, s') = create_backup p s in
      let more = create_backups ps s' in if good then more else (false, s')

  -- A source is set and read back.
  unfoldable pub put_source : Session R → Managed → Text → Text → Text → ℕ → Bool × Session R
  unfolding set_script_source verify_source
  put_source s m id source fp bytes =
      let (rc, s1) = set_script_source s id source in
      let verified = verify_source s1 m.prod_name fp bytes in
      if is_neg rc then (false, s1) else verified

  -- Every source is restored, whatever comes of the others.
  unfoldable pub restore_sources : List Snapshot → Session R → Bool × Session R
  unfolding put_source
  restore_sources [] s = (true, s)
  restore_sources (p ∷ ps) s =
      let (good, s1) = put_source s p.names p.prod.id p.prod.source p.prod.fp p.prod.bytes in
      let (more, s2) = restore_sources ps s1 in (good && more, s2)

  -- The scripts and the schedulers as they are; none when one of them is missing or not as expected.
  unfoldable pub take_snapshot : List Managed → Session R → Option (List Snapshot) × Session R
  unfolding script_lookup scheduler_lookup
  take_snapshot [] s = (some [], s)
  take_snapshot (m ∷ ms) s =
      let (rc1, prod, s1) = script_lookup s m.prod_name in
      let (rc2, sched, s2) = scheduler_lookup s1 m.prod_name in
      let (more, s3) = take_snapshot ms s2 in
      if is_neg rc1 || not prod.found
      then (none, s1)
      else if is_neg rc2 || not sched.found || not (str_eq sched.on_event m.prod_name)
      then (none, s2)
      else (map_some (λ ps. record { names = m; prod = prod; sched = sched } ∷ ps) more, s3)

  unfoldable pub pause_schedulers : List Snapshot → Session R → Bool × Session R
  unfolding set_scheduler_disabled
  pause_schedulers [] s = (true, s)
  pause_schedulers (p ∷ ps) s =
      let (rc, s') = set_scheduler_disabled s p.sched.id true in
      let more = pause_schedulers ps s' in if is_neg rc then (false, s') else more

  -- The snapshot and the rendered scripts have the same length.
  unfoldable pub put_sources : List Snapshot → List RenderedScript → Session R → Bool × Session R
  unfolding put_source
  put_sources [] scripts s = (true, s)
  put_sources (p ∷ ps) [] s = (false, s)
  put_sources (p ∷ ps) (d ∷ ds) s =
      let (good, s') = put_source s p.names p.prod.id d.source d.fp d.bytes in
      let more = put_sources ps ds s' in if good then more else (false, s')

  unfoldable pub remove_stages : List Managed → Session R → Session R
  unfolding remove_script_name
  remove_stages [] s = s
  remove_stages (m ∷ ms) s = remove_stages ms (remove_script_name s m.stage_name).1

  -- Behind the new sources: the runtime state is cleared, and the schedulers go on.
  unfoldable pub commit : List Snapshot → Session R → ℤ × Session R
  unfolding restore_sources restore_scheduler_states remove_stages managed_names
  commit ps s =
      let (rc, _, s1) = cleanup_dev2_runtime s in
      let (_, failed) = disable_adaptive_mangle (restore_sources ps s1).1 in
      if is_neg rc
      then (minus_one, failed)
      else (pos 0, remove_stages managed_names (restore_scheduler_states ps s1))

  -- Behind the pause: the new sources, or all the old ones again.
  unfoldable pub replace : List Snapshot → List RenderedScript → Session R → ℤ × Session R
  unfolding put_sources restore_sources restore_scheduler_states commit
  replace ps ds s =
      let (good, s1) = put_sources ps ds s in
      let done = commit ps s1 in
      if good then done else (minus_one, restore_scheduler_states ps (restore_sources ps s1).1)

  -- Behind the backups: the schedulers are paused, and their jobs come to an end.
  unfoldable pub pause_and_replace : List Snapshot → List RenderedScript → Session R → ℤ × Session R
  unfolding pause_schedulers wait_jobs_idle restore_scheduler_states replace
  pause_and_replace ps ds s =
      let (paused, s1) = pause_schedulers ps s in
      let (idle, s2) = wait_jobs_idle s1 in
      let done = replace ps ds s2 in
      if not paused
      then (minus_one, restore_scheduler_states ps s1)
      else if not idle
      then (minus_one, restore_scheduler_states ps s2)
      else done

  -- Behind the snapshot.
  unfoldable pub back_up_and_replace :
      List Snapshot → List RenderedScript → Session R → ℤ × Session R
  unfolding create_backups pause_and_replace
  back_up_and_replace ps ds s =
      let (good, s1) = create_backups ps s in
      let done = pause_and_replace ps ds s1 in if good then done else (minus_one, s1)

  unfoldable pub promote_bundle : RenderBundle → Session R → ℤ × Session R
  unfolding verify_stage take_snapshot back_up_and_replace managed_names
  promote_bundle desired s =
      let (staged, s1) = verify_stage managed_names desired.scripts s in
      let (taken, s2) = take_snapshot managed_names s1 in
      if not staged then (minus_one, s1) else (elim taken [
        | none ↦ (minus_one, s2)
        | some ps ↦ back_up_and_replace ps desired.scripts s2
      ])

  -- `promote_run`; the files that the renderer can read are a parameter.
  unfoldable pub promote_run : (Text → Option Text) → Settings → Session R → ℤ × Session R
  unfolding renderer_build promote_bundle
  promote_run read_file cfg s =
      let (desired, s1) = renderer_build read_file cfg s in
      elim desired [ none ↦ (minus_one, s1) | some bundle ↦ promote_bundle bundle s1 ]

  -- `promote_dry_run`
  unfoldable pub promote_dry_run : (Text → Option Text) → Settings → Session R → ℤ × Session R
  unfolding renderer_build verify_stage managed_names
  promote_dry_run read_file cfg s =
      let (desired, s1) = renderer_build read_file cfg s in
      elim desired [
        | none ↦ (minus_one, s1)
        | some bundle ↦
            let (staged, s2) = verify_stage managed_names bundle.scripts s1 in
            (if staged then pos 0 else minus_one, s2)
      ]
