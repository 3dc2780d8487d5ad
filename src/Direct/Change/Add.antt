-- ===== src/Direct/Change/Add.antt =====
-- About `direct_add` of src/direct.c.
use susanin.Prelude.{
  ◌≡◌, refl, ap, true, false, [], ◌∷◌, ◌++◌, some, is_some, leb, length, take-all, if◌then◌else◌,
  inl, inr, arith, Bool-cases, Option-cases,
}
use susanin.Prelude.Int.{ℤ, is_neg}
use susanin.Prelude.Text.{Text, copy_to}
use susanin.Ros.Session.{Router, Session}
use susanin.Config.Options.{Settings}
use susanin.Direct.Value.{DirectKind, normalize_value}
use susanin.Direct.Value.Normal.{normalize_value-IsNormal}
use susanin.Direct.Database.{Db, Disk, Outcome, is_reported, direct_max, db_load, db_find}
use susanin.Direct.Database.Valid.{IsValid, IsValid-append, db_load-IsValid}
use susanin.Direct.Sync.{direct_sync}
use susanin.Direct.Change.{parse_entry, add_to, direct_add}
use susanin.Direct.Change.Laws.{
  Stored, Whole, Read, parse_entry-value, save_and_sync-Whole, save_and_sync-Stored,
}

-- The database that an addition leaves: an entry that is there is not added again.
abbrev pub added : Db → DirectKind → Text → Db
added db kind value =
    if is_some (db_find db kind value)
    then db
    else db ++ (record { kind = kind; value = value } ∷ [])

module _ {R : Router} (s : Session R) (cfg : Settings) (outcome : Outcome) (disk : Disk)
    (reported : is_reported outcome ≡ true) where
  module _ (db : Db) (kind : DirectKind) (value text : Text) (loaded : db_load disk.conf ≡ some db)
      (normal : normalize_value kind text ≡ some value) where
    -- The copy of the value is whole.
    copied : copy_to 256 value ≡ value
    copied =
        take-all 255 value (omega (arith, (normalize_value-IsNormal kind text value normal).short))

    appended-IsValid :
        leb direct_max (length db) ≡ false
        → IsValid (db ++ (record { kind = kind; value = copy_to 256 value } ∷ []))
    appended-IsValid room =
        IsValid-append db kind text value (db_load-IsValid disk.conf db loaded) (ground arith)
          normal

    add_to-Whole : Whole disk (add_to s cfg outcome disk db kind value).1
    unfolding add_to
    add_to-Whole = elim (Option-cases (db_find db kind value)) [
      | inl e ↦ elim (Bool-cases (leb direct_max (length db))) [
        | inl full ↦ rw (e, add_to) (rw full (inl refl))
        | inr room ↦
            rw (e, add_to)
              (rw room (save_and_sync-Whole s cfg outcome disk reported _ (appended-IsValid room)))
      ]
      | inr (i, e) ↦ rw (e, add_to) (inl refl)
    ]

    add_to-Stored :
        (rc : ℤ) (disk' : Disk) (s' : Session R)
        → add_to s cfg outcome disk db kind value ≡ (rc, disk', s')
        → is_neg rc ≡ false
        → Stored s s' cfg disk' (added db kind value)
    unfolding add_to
    add_to-Stored rc disk' s' h n = elim (Option-cases (db_find db kind value)) [
      | inl e ↦ elim (Bool-cases (leb direct_max (length db))) [
        | inl full ↦ ground (arith, rw full at (rw (e, add_to) at h))
        | inr room ↦ rw e (
            rw copied at (
              save_and_sync-Stored s cfg outcome disk reported _ rc disk' s' (appended-IsValid room)
                (rw room at (rw (e, add_to) at h)) n))
      ]
      | inr (i, e) ↦
          let g = rw (e, add_to) at h in
          let sync = direct_sync s cfg disk.conf in
          let same : disk ≡ disk' = ap (λ r. r.1) g in
          let session : sync.1 ≡ s' = ap (λ r. r.2) g in
          let code : sync.0 ≡ rc = ap (λ r. r.0) g in
          rw e (record {
            loads = rw (← same) loaded;
            sync_rc = sync.0;
            synced = rw (← same) (rw (← session) refl);
            in_line = rw code n;
          })
    ]

  -- When no write is lost unreported: an addition that does not fail has read its arguments and the file, and leaves a file that loads to
  -- the old database, with the entry behind it unless it was there, with which the router is in line.
  pub direct_add_good :
      (kind_s value_s : Text) (rc : ℤ) (disk' : Disk) (s' : Session R)
      → direct_add s cfg outcome disk kind_s value_s ≡ (rc, disk', s')
      → is_neg rc ≡ false
      → (r : Read disk kind_s value_s) × Stored s s' cfg disk' (added r.db r.kind r.value)
  unfolding direct_add
  direct_add_good kind_s value_s rc disk' s' h n =
      elim (Option-cases (parse_entry kind_s value_s)) [
        | inl e ↦ ground (arith, rw (e, direct_add) at h)
        | inr ((kind, value), e) ↦ elim (Option-cases (db_load disk.conf)) [
          | inl f ↦ ground (arith, rw f at (rw (e, direct_add) at h))
          | inr (db, f) ↦ (
            record { kind = kind; value = value; db = db; parsed = e; loaded = f },
            add_to-Stored db kind value value_s f (parse_entry-value kind_s value_s kind value e) rc
                disk' s' (rw f at (rw (e, direct_add) at h)) n,
          )
        ]
      ]

  pub direct_add-Whole :
      (kind_s value_s : Text) → Whole disk (direct_add s cfg outcome disk kind_s value_s).1
  unfolding direct_add
  direct_add-Whole kind_s value_s = elim (Option-cases (parse_entry kind_s value_s)) [
    | inl e ↦ rw (e, direct_add) (inl refl)
    | inr ((kind, value), e) ↦ elim (Option-cases (db_load disk.conf)) [
      | inl f ↦ rw (e, direct_add) (rw f (inl refl))
      | inr (db, f) ↦
          rw (e, direct_add)
            (rw f (
              add_to-Whole db kind value value_s f (parse_entry-value kind_s value_s kind value e)))
    ]
  ]
