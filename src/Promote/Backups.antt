-- ===== src/Promote/Backups.antt =====
-- About the staged scripts and the backups of src/promote.c: what reading them back has seen.
use susanin.Prelude.{◌≡◌, refl, true, false, List, [], ◌∷◌, inl, inr, Bool-cases}
use susanin.Prelude.Int.{is_neg}
use susanin.Prelude.Text.{Text}
use susanin.Ros.Session.{Router, Session}
use susanin.Renderer.Build.{RenderedScript}
use susanin.Promote.{
  Managed, Snapshot, backup_comment, inert_words, send, remove_script_name, add_inert_script,
  verify_source, verify_stage, create_backup, create_backups,
}
use susanin.Promote.Shown.{Verified, verify_source-Verified}
use susanin.Promote.Quiet.{}

-- The command that adds the backup of a script.
abbrev pub backup_words : Snapshot → List Text
backup_words p =
    inert_words p.names.backup_name p.prod.source (backup_comment p.names.prod_name p.prod.fp)

-- The staged scripts, one after the other: each was read back as it was rendered.
pub data AllStaged {R : Router}
    : List Managed → List RenderedScript → Session R → Session R → Type 1 where
  no_stages : {ds : List RenderedScript} {s : Session R} → AllStaged [] ds s s
  staged_too :
      {m : Managed} {ms : List Managed} {d : RenderedScript} {ds : List RenderedScript}
      {s s1 s' : Session R}
      → Verified m.stage_name d.fp d.bytes s s1
      → AllStaged ms ds s1 s'
      → AllStaged (m ∷ ms) (d ∷ ds) s s'

-- From `s` to `s'` one script was backed up: an older backup was removed without a failure, the source was
-- added without a failure, and right behind that it was read back.
pub record OneBackup {R : Router} (p : Snapshot) (s s' : Session R) : Type 1 where
  pub removed : is_neg (remove_script_name s p.names.backup_name).0 ≡ false
  pub freed : Session R
  pub freed_then : (remove_script_name s p.names.backup_name).1 ≡ freed
  pub added : is_neg (send freed (backup_words p)).0 ≡ false
  pub verified :
      Verified p.names.backup_name p.prod.fp p.prod.bytes (send freed (backup_words p)).1 s'

-- The backups of a snapshot, one after the other.
pub data AllBackedUp {R : Router} : List Snapshot → Session R → Session R → Type 1 where
  no_backups : {s : Session R} → AllBackedUp [] s s
  backed_up :
      {p : Snapshot} {ps : List Snapshot} {s s1 s' : Session R}
      → OneBackup p s s1
      → AllBackedUp ps s1 s'
      → AllBackedUp (p ∷ ps) s s'

module _ {R : Router} where
  pub verify_stage-AllStaged :
      (ms : List Managed) (ds : List RenderedScript) (s : Session R)
      → (verify_stage ms ds s).0 ≡ true
      → AllStaged ms ds s (verify_stage ms ds s).1
  unfolding verify_stage
  verify_stage-AllStaged [] ds s h = no_stages
  verify_stage-AllStaged (m ∷ ms) [] s h = cc h
  verify_stage-AllStaged (m ∷ ms) (d ∷ ds) s h =
      let one = verify_source s m.stage_name d.fp d.bytes in
      elim (Bool-cases one.0) [
        | inr e ↦ cc (rw (e, verify_stage) at h)
        | inl e ↦
            rw (e, verify_stage)
              (staged_too (verify_source-Verified s m.stage_name d.fp d.bytes e)
                (verify_stage-AllStaged ms ds one.1 (rw (e, verify_stage) at h)))
      ]

  create_backup-OneBackup :
      (p : Snapshot) (s : Session R)
      → (create_backup p s).0 ≡ true
      → OneBackup p s (create_backup p s).1
  unfolding create_backup add_inert_script
  create_backup-OneBackup p s h =
      let removed = remove_script_name s p.names.backup_name in
      let added = send removed.1 (backup_words p) in
      elim (Bool-cases (is_neg removed.0)) [
        | inl e ↦ cc (rw (e, create_backup) at h)
        | inr e ↦ elim (Bool-cases (is_neg added.0)) [
          | inl f ↦ cc (rw f at (rw (e, create_backup) at h))
          | inr f ↦
              let seen =
                verify_source-Verified added.1 p.names.backup_name p.prod.fp p.prod.bytes
                  (rw f at (rw (e, create_backup) at h)) in
              rw (e, create_backup)
                (rw (f) (record {
                  removed = e;
                  freed = removed.1;
                  freed_then = refl;
                  added = f;
                  verified = seen;
                }))
        ]
      ]

  pub create_backups-AllBackedUp :
      (ps : List Snapshot) (s : Session R)
      → (create_backups ps s).0 ≡ true
      → AllBackedUp ps s (create_backups ps s).1
  unfolding create_backups
  create_backups-AllBackedUp [] s h = no_backups
  create_backups-AllBackedUp (p ∷ ps) s h = elim (Bool-cases (create_backup p s).0) [
    | inr e ↦ cc (rw (e, create_backups) at h)
    | inl e ↦
        rw (e, create_backups)
          (backed_up (create_backup-OneBackup p s e)
            (create_backups-AllBackedUp ps (create_backup p s).1 (rw (e, create_backups) at h)))
  ]
