-- ===== src/Direct/Change/Laws.antt =====
-- About `direct_add` and `direct_remove` of src/direct.c.
use susanin.Prelude.{
  ◌≡◌, refl, ap, true, false, some, ◌⊎◌, inl, inr, arith, Bool-cases, Option-cases,
}
use susanin.Prelude.Int.{ℤ, is_neg}
use susanin.Prelude.Text.{Text}
use susanin.Ros.Session.{Router, Session}
use susanin.Config.Options.{Settings}
use susanin.Direct.Value.{DirectKind, parse_kind, normalize_value}
use susanin.Direct.Database.{
  Db, Disk, Outcome, is_reported, saved, lost, open_failed, close_failed, rename_failed, db_load,
  db_text, db_save,
}
use susanin.Direct.Database.Valid.{IsValid}
use susanin.Direct.Database.RoundTrip.{db_load-db_text}
use susanin.Direct.Sync.{direct_sync}
use susanin.Direct.Change.{parse_entry, save_and_sync}

-- The file holds this database, and the router was brought in line with it.
pub record Stored {R : Router} (s s' : Session R) (cfg : Settings) (disk' : Disk) (db : Db)
    : Type 0 where
  pub loads : db_load disk'.conf ≡ some db
  pub sync_rc : ℤ
  pub synced : direct_sync s cfg disk'.conf ≡ (sync_rc, s')
  pub in_line : is_neg sync_rc ≡ false

-- The file is as it was, or holds another database that is whole and valid.
abbrev pub Whole : Disk → Disk → Type 0
Whole disk disk' =
    (disk'.conf ≡ disk.conf) ⊎ ((db : Db) × IsValid db × (disk'.conf ≡ some (db_text db)))

pub parse_entry-value :
    (kind_s value_s : Text) (kind : DirectKind) (value : Text)
    → parse_entry kind_s value_s ≡ some (kind, value)
    → normalize_value kind value_s ≡ some value
unfolding parse_entry
parse_entry-value kind_s value_s kind value h = elim (Option-cases (parse_kind kind_s)) [
  | inl e ↦ cc (rw (e, parse_entry) at h)
  | inr (k, e) ↦ elim (Option-cases (normalize_value k value_s)) [
    | inl f ↦ cc (rw f at (rw (e, parse_entry) at h))
    | inr (v, f) ↦ ground (arith, rw f at (rw (e, parse_entry) at h))
  ]
]

-- The value and the database that a command has read.
pub record Read (disk : Disk) (kind_s value_s : Text) : Type 0 where
  pub kind : DirectKind
  pub value : Text
  pub db : Db
  pub parsed : parse_entry kind_s value_s ≡ some (kind, value)
  pub loaded : db_load disk.conf ≡ some db

db_save-Whole :
    (outcome : Outcome) (disk : Disk) (db : Db)
    → is_reported outcome ≡ true
    → IsValid db
    → Whole disk (db_save outcome disk db).1
unfolding db_save is_reported
db_save-Whole (lost text) disk db reported v = cc reported
db_save-Whole saved disk db reported v = inr (db, v, refl)
db_save-Whole open_failed disk db reported v = inl refl
db_save-Whole close_failed disk db reported v = inl refl
db_save-Whole rename_failed disk db reported v = inl refl

db_save_good :
    (outcome : Outcome) (disk : Disk) (db : Db)
    → is_reported outcome ≡ true
    → is_neg (db_save outcome disk db).0 ≡ false
    → (db_save outcome disk db).1.conf ≡ some (db_text db)
unfolding db_save is_reported
db_save_good (lost text) disk db reported h = cc reported
db_save_good saved disk db reported h = refl
db_save_good open_failed disk db reported h = cc
db_save_good close_failed disk db reported h = cc
db_save_good rename_failed disk db reported h = cc

module _ {R : Router} (s : Session R) (cfg : Settings) (outcome : Outcome) (disk : Disk)
    (reported : is_reported outcome ≡ true) where
  save_and_sync-disk :
      (db : Db) → (save_and_sync s cfg outcome disk db).1 ≡ (db_save outcome disk db).1
  unfolding save_and_sync
  save_and_sync-disk db = ground arith

  pub save_and_sync-Whole :
      (db : Db) → IsValid db → Whole disk (save_and_sync s cfg outcome disk db).1
  save_and_sync-Whole db v = rw (save_and_sync-disk db) (db_save-Whole outcome disk db reported v)

  pub save_and_sync-Stored :
      (db : Db) (rc : ℤ) (disk' : Disk) (s' : Session R)
      → IsValid db
      → save_and_sync s cfg outcome disk db ≡ (rc, disk', s')
      → is_neg rc ≡ false
      → Stored s s' cfg disk' db
  unfolding save_and_sync
  save_and_sync-Stored db rc disk' s' v h n =
      let after = (db_save outcome disk db).1 in
      let sync = direct_sync s cfg after.conf in
      elim (Bool-cases (is_neg (db_save outcome disk db).0)) [
        | inl e ↦ ground (arith, rw (e, save_and_sync) at h)
        | inr e ↦ elim (Bool-cases (is_neg sync.0)) [
          | inl f ↦ ground (arith, rw f at (rw (e, save_and_sync) at h))
          | inr f ↦
              let same : after ≡ disk' = ap (λ r. r.1) (rw f at (rw (e, save_and_sync) at h)) in
              let session : sync.1 ≡ s' = ap (λ r. r.2) (rw f at (rw (e, save_and_sync) at h)) in
              record {
                loads =
                    rw (← same)
                      (rw (db_save_good outcome disk db reported e) (db_load-db_text db v));
                sync_rc = sync.0;
                synced = rw (← same) (rw (← session) refl);
                in_line = f;
              }
        ]
      ]
