-- ===== src/Direct/Database.antt =====
-- The database file of src/direct.c: `db_load`, `db_save`, `db_find`, and the changes of the two
-- commands. A file that cannot be opened is `none`.
pub mod Valid
pub mod Find
pub mod RoundTrip
use susanin.Prelude.{
  ℕ, zero, suc, Bool, true, false, ◌&&◌, List, [], ◌∷◌, ◌++◌, Option, none, some, leb, ◌==◌,
  if◌then◌else◌, length, map_some,
}
use susanin.Prelude.Int.{ℤ, pos, minus_one}
use susanin.Prelude.Text.{Text, codes, str_eq, copy_to, c_string}
use susanin.Config.Load.{file_lines, trim}
use susanin.Direct.Value.{DirectKind, ip, domain, kind_name, parse_kind, normalize_value, split_at}

-- `direct_entry_t`
pub record Entry : Type 0 where
  pub kind : DirectKind
  pub value : Text

-- The first `count` entries of `direct_db_t`.
abbrev pub Db : Type 0
Db = List Entry

abbrev pub direct_max : ℕ
direct_max = 256

-- The two words of a line: at its first tab, or else at its first space.
unfoldable pub line_parts : Text → Option (Text × Text)
unfolding split_at
line_parts line = elim (split_at 9 line) [ none ↦ split_at b' ' line | some p ↦ some p ]

-- The kind and the value that a line names; blank lines, comments and lines of no known kind name none.
unfoldable pub line_entry : Text → Option (DirectKind × Text)
unfolding line_parts parse_kind
line_entry line =
    let s = trim (c_string line) in
    elim s [
      | [] ↦ none
      | c ∷ cs ↦ if c == b'#' then none else (elim (line_parts (c ∷ cs)) [
        | none ↦ none
        | some p ↦ map_some (λ kind. (kind, trim p.1)) (parse_kind (trim p.0))
      ])
    ]

-- The loop of `db_load`; `none` is its -1, for a line of a known kind behind 256 entries.
unfoldable pub load_entries : Db → List Text → Option Db
load_entries db [] = some db
load_entries db (line ∷ lines) = elim (line_entry line) [
  | none ↦ load_entries db lines
  | some (kind, text) ↦ elim (leb direct_max (length db)) [
    | true ↦ none
    | false ↦ elim (normalize_value kind text) [
      | none ↦ load_entries db lines
      | some v ↦ load_entries (db ++ (record { kind = kind; value = copy_to 256 v } ∷ [])) lines
    ]
  ]
]

unfoldable pub db_load : Option Text → Option Db
unfolding load_entries
db_load none = some []
db_load (some bytes) = load_entries [] (file_lines 511 [] bytes)

unfoldable pub entry_line : Entry → Text
unfolding kind_name
entry_line e = kind_name e.kind ++ (9 ∷ (e.value ++ (10 ∷ [])))

unfoldable pub entry_lines : Db → Text
unfolding entry_line
entry_lines [] = []
entry_lines (e ∷ db) = entry_line e ++ entry_lines db

unfoldable pub file_head : Text
unfolding codes
file_head =
    codes "# Susanin VPN Direct persistent policy"
    ++ (10 ∷ (codes "# Format: ip|domain<TAB>value" ++ (10 ∷ [])))

-- What `db_save` writes.
unfoldable pub db_text : Db → Text
unfolding entry_lines file_head
db_text db = file_head ++ entry_lines db

-- The database file and the one beside it that replaces it.
pub record Disk : Type 0 where
  pub conf : Option Text
  pub tmp : Option Text

-- What the file system does with a save. `lost` is a save in which `fprintf` did not write all of the text
-- and `fclose` did not fail: nothing looks at the results of `fprintf`, so the file ends up with what was
-- written, whatever that is.
pub data Outcome : Type 0 where
  saved : Outcome
  lost : Text → Outcome
  open_failed : Outcome
  close_failed : Outcome
  rename_failed : Outcome

unfoldable pub db_save : Outcome → Disk → Db → ℤ × Disk
db_save saved disk db = (pos 0, record { conf = some (db_text db); tmp = none })
db_save (lost text) disk db = (pos 0, record { conf = some text; tmp = none })
db_save open_failed disk db = (minus_one, disk)
db_save close_failed disk db = (minus_one, record disk { tmp = none })
db_save rename_failed disk db = (minus_one, record disk { tmp = none })

unfoldable pub kinds_equal : DirectKind → DirectKind → Bool
kinds_equal ip ip = true
kinds_equal ip domain = false
kinds_equal domain ip = false
kinds_equal domain domain = true

unfoldable pub is_entry : DirectKind → Text → Entry → Bool
unfolding kinds_equal
is_entry kind value e = kinds_equal e.kind kind && str_eq e.value value

-- The index of an entry; `none` is -1.
unfoldable pub db_find : Db → DirectKind → Text → Option ℕ
unfolding is_entry
db_find [] kind value = none
db_find (e ∷ db) kind value =
    let more = db_find db kind value in
    if is_entry kind value e then some 0 else map_some (λ i. suc i) more

-- The loop that closes the gap of a removed entry.
unfoldable pub remove_at : ℕ → Db → Db
remove_at i [] = []
remove_at zero (e ∷ db) = db
remove_at (suc i) (e ∷ db) = e ∷ remove_at i db

-- No write was lost without `fclose` failing.
unfoldable pub is_reported : Outcome → Bool
is_reported (lost text) = false
is_reported saved = true
is_reported open_failed = true
is_reported close_failed = true
is_reported rename_failed = true
