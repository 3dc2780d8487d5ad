-- ===== src/Direct/Database/Valid.antt =====
-- About the entries that `db_load` of src/direct.c reads, and about `db_find`.
use susanin.Prelude.{
  ℕ, zero, suc, ◌≤◌, ◌<◌, ◌≡◌, List, [], ◌∷◌, ◌++◌, Option, none, some, leb, All, arith, length,
  length-append, take-all, Bool-cases, Option-cases, inl, inr,
}
use susanin.Prelude.{All-append}
use susanin.Prelude.Text.{Text, copy_to}
use susanin.Config.Load.{file_lines}
use susanin.Direct.Value.{DirectKind, normalize_value}
use susanin.Direct.Value.Normal.{IsNormal, normalize_value-IsNormal}
use susanin.Direct.Database.{Entry, Db, direct_max, line_entry, load_entries, db_load, remove_at}

abbrev pub IsEntry : Entry → Type 0
IsEntry e = IsNormal e.kind e.value

-- A database that fits its array, with values in normal form.
pub record IsValid (db : Db) : Type 0 where
  pub fits : length db ≤ 256
  pub normal : All IsEntry db

pub IsValid-append :
    (db : Db) (kind : DirectKind) (s v : Text)
    → IsValid db
    → length db < 256
    → normalize_value kind s ≡ some v
    → IsValid (db ++ (record { kind = kind; value = copy_to 256 v } ∷ []))
IsValid-append db kind s v i room h =
    let n = normalize_value-IsNormal kind s v h in
    rw (take-all 255 v (omega (arith, n.short))) (record {
      fits = rw length-append (omega arith);
      normal = All-append IsEntry db (record { kind = kind; value = v } ∷ []) i.normal (n, tt);
    })

load_entries-IsValid :
    (lines : List Text) (db db' : Db) → IsValid db → load_entries db lines ≡ some db' → IsValid db'
unfolding load_entries
load_entries-IsValid [] db db' i h = ground arith
load_entries-IsValid (line ∷ lines) db db' i h = elim (Option-cases (line_entry line)) [
  | inl e ↦ load_entries-IsValid lines db db' i (rw (e, load_entries) at h)
  | inr ((kind, text), e) ↦ elim (Bool-cases (leb direct_max (length db))) [
    | inl full ↦ cc (rw full at (rw (e, load_entries) at h))
    | inr room ↦ elim (Option-cases (normalize_value kind text)) [
      | inl bad ↦
          load_entries-IsValid lines db db' i (rw bad at (rw room at (rw (e, load_entries) at h)))
      | inr (v, good) ↦
          load_entries-IsValid lines (db ++ (record { kind = kind; value = copy_to 256 v } ∷ []))
            db' (IsValid-append db kind text v i (ground arith) good)
            (rw good at (rw room at (rw (e, load_entries) at h)))
    ]
  ]
]

-- Whatever the file holds, what is loaded fits the array and holds values in normal form only.
pub db_load-IsValid : (file : Option Text) (db : Db) → db_load file ≡ some db → IsValid db
unfolding db_load
db_load-IsValid none db h = ground arith
db_load-IsValid (some bytes) db h =
    load_entries-IsValid (file_lines 511 [] bytes) [] db
      (record { fits = omega arith; normal = tt }) h

length-remove_at : (i : ℕ) (db : Db) → length (remove_at i db) ≤ length db
unfolding remove_at
length-remove_at i [] = omega arith
length-remove_at zero (e ∷ db) = omega arith
length-remove_at (suc i) (e ∷ db) = omega (arith, length-remove_at i db)

All-remove_at : (i : ℕ) (db : Db) → All IsEntry db → All IsEntry (remove_at i db)
unfolding remove_at
All-remove_at i [] h = tt
All-remove_at zero (e ∷ db) h = h.1
All-remove_at (suc i) (e ∷ db) h = (h.0, All-remove_at i db h.1)

pub IsValid-remove_at : (i : ℕ) (db : Db) → IsValid db → IsValid (remove_at i db)
IsValid-remove_at i db v = record {
  fits = omega (arith, length-remove_at i db, v.fits);
  normal = All-remove_at i db v.normal;
}
