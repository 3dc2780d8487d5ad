-- ===== src/Direct/Change/Remove.antt =====
-- About `direct_remove` of src/direct.c, and about both commands.
use susanin.Prelude.{◌≡◌, refl, true, false, inl, inr, arith, Option-cases}
use susanin.Prelude.Int.{ℤ, is_neg}
use susanin.Prelude.Text.{Text}
use susanin.Ros.Session.{Router, Session}
use susanin.Config.Options.{Settings}
use susanin.Direct.Database.{Db, Disk, Outcome, is_reported, db_load, db_find, remove_at}
use susanin.Direct.Database.Valid.{db_load-IsValid, IsValid-remove_at}
use susanin.Direct.Database.Find.{WithoutFirst, db_find-WithoutFirst}
use susanin.Direct.Change.{parse_entry, direct_add, remove_from, direct_remove}
use susanin.Direct.Change.Laws.{Stored, Whole, Read, save_and_sync-Whole, save_and_sync-Stored}
use susanin.Direct.Change.Add.{direct_add-Whole}

module _ {R : Router} (s : Session R) (cfg : Settings) (disk : Disk) where
  -- What a removal that does not fail leaves.
  pub record Dropped (kind_s value_s : Text) (disk' : Disk) (s' : Session R) : Type 0 where
    pub read : Read disk kind_s value_s
    pub db' : Db
    pub removed : WithoutFirst read.db db' read.kind read.value
    pub stored : Stored s s' cfg disk' db'

module _ {R : Router} (s : Session R) (cfg : Settings) (outcome : Outcome) (disk : Disk)
    (reported : is_reported outcome ≡ true) where
  -- When no write is lost unreported: a removal that does not fail has read its arguments and the file, and leaves a file that loads to
  -- the old database without its first entry of that value, with which the router is in line.
  pub direct_remove_good :
      (kind_s value_s : Text) (rc : ℤ) (disk' : Disk) (s' : Session R)
      → direct_remove s cfg outcome disk kind_s value_s ≡ (rc, disk', s')
      → is_neg rc ≡ false
      → Dropped s cfg disk kind_s value_s disk' s'
  unfolding direct_remove remove_from
  direct_remove_good kind_s value_s rc disk' s' h n =
      elim (Option-cases (parse_entry kind_s value_s)) [
        | inl e ↦ ground (arith, rw (e, direct_remove) at h)
        | inr ((kind, value), e) ↦ elim (Option-cases (db_load disk.conf)) [
          | inl f ↦ ground (arith, rw f at (rw (e, direct_remove) at h))
          | inr (db, f) ↦
              let g = rw f at (rw (e, direct_remove) at h) in
              elim (Option-cases (db_find db kind value)) [
                | inl gone ↦ ground (arith, rw (gone, remove_from) at g)
                | inr (i, found) ↦ record {
                  read = record { kind = kind; value = value; db = db; parsed = e; loaded = f };
                  db' = remove_at i db;
                  removed = db_find-WithoutFirst db kind value i found;
                  stored =
                      save_and_sync-Stored s cfg outcome disk reported (remove_at i db) rc disk' s'
                        (IsValid-remove_at i db (db_load-IsValid disk.conf db f))
                        (rw (found, remove_from) at g) n;
                }
              ]
        ]
      ]

  direct_remove-Whole :
      (kind_s value_s : Text) → Whole disk (direct_remove s cfg outcome disk kind_s value_s).1
  unfolding direct_remove remove_from
  direct_remove-Whole kind_s value_s = elim (Option-cases (parse_entry kind_s value_s)) [
    | inl e ↦ rw (e, direct_remove) (inl refl)
    | inr ((kind, value), e) ↦ elim (Option-cases (db_load disk.conf)) [
      | inl f ↦ rw (e, direct_remove) (rw f (inl refl))
      | inr (db, f) ↦ elim (Option-cases (db_find db kind value)) [
        | inl gone ↦ rw (e, direct_remove) (rw f (rw (gone, remove_from) (inl refl)))
        | inr (i, found) ↦
            rw (e, direct_remove)
              (rw f (
                rw (found, remove_from)
                  (save_and_sync-Whole s cfg outcome disk reported (remove_at i db)
                    (IsValid-remove_at i db (db_load-IsValid disk.conf db f)))))
      ]
    ]
  ]

  -- However a command ends, and whatever open, close or rename fails, the database file is as it was, or
  -- holds another database that is whole and valid, when no write is lost unreported.
  pub changes-Whole :
      (kind_s value_s : Text)
      → Whole disk (direct_add s cfg outcome disk kind_s value_s).1
        × Whole disk (direct_remove s cfg outcome disk kind_s value_s).1
  changes-Whole kind_s value_s = (
    direct_add-Whole s cfg outcome disk reported kind_s value_s,
    direct_remove-Whole kind_s value_s,
  )
