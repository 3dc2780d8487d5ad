-- ===== src/Direct/Change.antt =====
-- `direct_add` and `direct_remove` of src/direct.c.
pub mod Laws
pub mod Add
pub mod Remove
use susanin.Prelude.{
  Bool, true, false, List, [], ◌∷◌, ◌++◌, Option, none, some, leb, length, if◌then◌else◌, ℕ,
}
use susanin.Prelude.Int.{ℤ, pos, minus_one, is_neg}
use susanin.Prelude.Text.{Text, copy_to}
use susanin.Ros.Session.{Router, Session}
use susanin.Config.Options.{Settings}
use susanin.Direct.Value.{DirectKind, parse_kind, normalize_value}
use susanin.Direct.Database.{
  Entry, Db, Disk, Outcome, direct_max, db_load, db_save, db_find, remove_at,
}
use susanin.Direct.Sync.{direct_sync}

-- The kind and the value of the arguments.
unfoldable pub parse_entry : Text → Text → Option (DirectKind × Text)
parse_entry kind_s value_s = elim (parse_kind kind_s) [
  | none ↦ none
  | some kind ↦ elim (normalize_value kind value_s) [ none ↦ none | some v ↦ some (kind, v) ]
]

-- The result of a command, the files and the session.
abbrev pub Changed : Router → Type 0
Changed R = ℤ × Disk × Session R

module _ {R : Router} where
  -- The end of both commands: the changed database is saved and then synchronised.
  unfoldable pub save_and_sync : Session R → Settings → Outcome → Disk → Db → Changed R
  save_and_sync s cfg outcome disk db =
      let (saved_rc, disk') = db_save outcome disk db in
      let (sync_rc, s') = direct_sync s cfg disk'.conf in
      if is_neg saved_rc
      then (minus_one, disk', s)
      else if is_neg sync_rc
      then (minus_one, disk', s')
      else (pos 0, disk', s')

  -- An entry that is there already is only synchronised.
  unfoldable pub add_to : Session R → Settings → Outcome → Disk → Db → DirectKind → Text → Changed R
  unfolding save_and_sync
  add_to s cfg outcome disk db kind value = elim (db_find db kind value) [
    | some i ↦ let (rc, s') = direct_sync s cfg disk.conf in (rc, disk, s')
    | none ↦ elim (leb direct_max (length db)) [
      | true ↦ (minus_one, disk, s)
      | false ↦
          save_and_sync s cfg outcome disk
            (db ++ (record { kind = kind; value = copy_to 256 value } ∷ []))
    ]
  ]

  unfoldable pub direct_add : Session R → Settings → Outcome → Disk → Text → Text → Changed R
  unfolding parse_entry add_to
  direct_add s cfg outcome disk kind_s value_s = elim (parse_entry kind_s value_s) [
    | none ↦ (minus_one, disk, s)
    | some (kind, value) ↦ elim (db_load disk.conf) [
      | none ↦ (minus_one, disk, s)
      | some db ↦ add_to s cfg outcome disk db kind value
    ]
  ]

  unfoldable pub remove_from :
      Session R → Settings → Outcome → Disk → Db → DirectKind → Text → Changed R
  unfolding save_and_sync
  remove_from s cfg outcome disk db kind value = elim (db_find db kind value) [
    | none ↦ (minus_one, disk, s)
    | some i ↦ save_and_sync s cfg outcome disk (remove_at i db)
  ]

  unfoldable pub direct_remove : Session R → Settings → Outcome → Disk → Text → Text → Changed R
  unfolding parse_entry remove_from
  direct_remove s cfg outcome disk kind_s value_s = elim (parse_entry kind_s value_s) [
    | none ↦ (minus_one, disk, s)
    | some (kind, value) ↦ elim (db_load disk.conf) [
      | none ↦ (minus_one, disk, s)
      | some db ↦ remove_from s cfg outcome disk db kind value
    ]
  ]
