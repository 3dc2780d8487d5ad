-- ===== src/Promote/Quiet.antt =====
-- About the commands of src/promote.c up to its backups.
use susanin.Prelude.{
  ◌≡◌, refl, Bool, false, not, ◌||◌, List, [], ◌∷◌, none, inl, inr, Bool-cases, if-second, zero,
  suc, ℕ,
}
use susanin.Prelude.Int.{is_neg}
use susanin.Prelude.Text.{Text, codes, str_eq, str_eq_iff}
use susanin.Ros.Session.{Router, Session}
use susanin.Ros.Session.Log.{
  SentOnly, SentOnly-refl, SentOnly-trans, SentOnly-ros_command, SentOnly-sleep, is_change,
  ends_with,
}
use susanin.Renderer.Build.{RenderedScript}
use susanin.Promote.{
  Managed, Snapshot, drop_words, inert_words, backup_comment, script_lookup, script_loop,
  script_lookup_retry, scheduler_lookup, send, remove_script_name, add_inert_script, verify_source,
  verify_stage, create_backup, create_backups, take_snapshot,
}

-- A command that sets the source of a script.
unfoldable pub sets_source : List Text → Bool
unfolding codes
sets_source [] = false
sets_source (w ∷ ws) = str_eq w (codes "/system/script/set")

abbrev pub Harmless : List Text → Type 0
Harmless words = sets_source words ≡ false

pub query-Harmless : (words : List Text) → is_change words ≡ false → Harmless words
unfolding sets_source is_change ends_with codes str_eq
query-Harmless [] h = refl
query-Harmless (w ∷ ws) h = elim (Bool-cases (str_eq w (codes "/system/script/set"))) [
  | inr e ↦ e
  | inl e ↦ cc (rw ((str_eq_iff w (codes "/system/script/set")).0 e) at h)
]

module _ {R : Router} where
  abbrev pub Quiet : Session R → Session R → Type 0
  Quiet s s' = SentOnly Harmless s s'

  Quiet-script_lookup : (s : Session R) (name : Text) → Quiet s (script_lookup s name).2
  unfolding script_lookup sets_source codes str_eq
  Quiet-script_lookup s name = SentOnly-ros_command Harmless s _ _ _ refl

  Quiet-scheduler_lookup : (s : Session R) (name : Text) → Quiet s (scheduler_lookup s name).2
  unfolding scheduler_lookup sets_source codes str_eq
  Quiet-scheduler_lookup s name = SentOnly-ros_command Harmless s _ _ _ refl

  Quiet-send :
      (s : Session R) (words : List Text) → sets_source words ≡ false → Quiet s (send s words).1
  unfolding send
  Quiet-send s words h = SentOnly-ros_command Harmless s words none tt h

  Quiet-script_loop : (n : ℕ) (s : Session R) (name : Text) → Quiet s (script_loop n s name).1
  unfolding script_loop
  Quiet-script_loop zero s name = SentOnly-refl Harmless s
  Quiet-script_loop (suc n) s name =
      if-second (Quiet s) _ _ _ (λ h. Quiet-script_lookup s name)
        (λ h.
          SentOnly-trans Harmless (Quiet-script_lookup s name)
            (SentOnly-trans Harmless (SentOnly-sleep Harmless _) (Quiet-script_loop n _ name)))

  Quiet-verify_source :
      (s : Session R) (name fp : Text) (bytes : ℕ) → Quiet s (verify_source s name fp bytes).1
  unfolding verify_source script_lookup_retry
  Quiet-verify_source s name fp bytes = Quiet-script_loop 15 s name

  pub Quiet-verify_stage :
      (ms : List Managed) (ds : List RenderedScript) (s : Session R)
      → Quiet s (verify_stage ms ds s).1
  unfolding verify_stage
  Quiet-verify_stage [] ds s = SentOnly-refl Harmless s
  Quiet-verify_stage (m ∷ ms) [] s = SentOnly-refl Harmless s
  Quiet-verify_stage (m ∷ ms) (d ∷ ds) s =
      if-second (Quiet s) _ _ _
        (λ h.
          SentOnly-trans Harmless (Quiet-verify_source s m.stage_name d.fp d.bytes)
            (Quiet-verify_stage ms ds _))
        (λ h. Quiet-verify_source s m.stage_name d.fp d.bytes)

  pub Quiet-take_snapshot : (ms : List Managed) (s : Session R) → Quiet s (take_snapshot ms s).1
  unfolding take_snapshot
  Quiet-take_snapshot [] s = SentOnly-refl Harmless s
  Quiet-take_snapshot (m ∷ ms) s =
      let script = script_lookup s m.prod_name in
      let job = scheduler_lookup script.2 m.prod_name in
      let one = Quiet-script_lookup s m.prod_name in
      let two = SentOnly-trans Harmless one (Quiet-scheduler_lookup script.2 m.prod_name) in
      elim (Bool-cases (is_neg script.0 || not script.1.found)) [
        | inl e ↦ rw (e) one
        | inr e ↦
            elim (Bool-cases
              (is_neg job.0 || not job.1.found || not (str_eq job.1.on_event m.prod_name))) [
                | inl f ↦ rw (e) (rw (f) two)
                | inr f ↦
                    rw (e) (rw (f) (SentOnly-trans Harmless two (Quiet-take_snapshot ms job.2)))
              ]
      ]

  Quiet-remove_script_name : (s : Session R) (name : Text) → Quiet s (remove_script_name s name).1
  unfolding remove_script_name sets_source codes str_eq
  Quiet-remove_script_name s name =
      let looked = Quiet-script_lookup s name in
      let call = script_lookup s name in
      elim (Bool-cases (is_neg call.0)) [
        | inl e ↦ rw (e) looked
        | inr e ↦ elim (Bool-cases call.1.found) [
          | inl f ↦ rw (e) (
              rw (f)
                (SentOnly-trans Harmless looked (Quiet-send call.2 (drop_words call.1.id) refl)))
          | inr f ↦ rw (e) (rw (f) looked)
        ]
      ]

  Quiet-add_inert_script :
      (s : Session R) (name source comment : Text)
      → Quiet s (add_inert_script s name source comment).1
  unfolding add_inert_script sets_source codes str_eq
  Quiet-add_inert_script s name source comment = Quiet-send s (inert_words name source comment) refl

  Quiet-create_backup : (p : Snapshot) (s : Session R) → Quiet s (create_backup p s).1
  unfolding create_backup
  Quiet-create_backup p s =
      let comment = backup_comment p.names.prod_name p.prod.fp in
      let removed = remove_script_name s p.names.backup_name in
      let added = add_inert_script removed.1 p.names.backup_name p.prod.source comment in
      let one = Quiet-remove_script_name s p.names.backup_name in
      let two =
        SentOnly-trans Harmless one
          (Quiet-add_inert_script removed.1 p.names.backup_name p.prod.source comment) in
      elim (Bool-cases (is_neg removed.0)) [
        | inl e ↦ rw (e) one
        | inr e ↦ elim (Bool-cases (is_neg added.0)) [
          | inl f ↦ rw (e) (rw (f) two)
          | inr f ↦ rw (e) (
              rw (f) (
                SentOnly-trans Harmless two
                  (Quiet-verify_source added.1 p.names.backup_name p.prod.fp p.prod.bytes)))
        ]
      ]

  pub Quiet-create_backups : (ps : List Snapshot) (s : Session R) → Quiet s (create_backups ps s).1
  unfolding create_backups
  Quiet-create_backups [] s = SentOnly-refl Harmless s
  Quiet-create_backups (p ∷ ps) s =
      if-second (Quiet s) _ _ _
        (λ h. SentOnly-trans Harmless (Quiet-create_backup p s) (Quiet-create_backups ps _))
        (λ h. Quiet-create_backup p s)
