-- ===== src/Direct/Database/RoundTrip.antt =====
-- About `db_save` of src/direct.c, read back by `db_load`.
use susanin.Prelude.{
  ◌+◌, ◌≤◌, ◌<◌, ◌≡◌, ◌≢◌, refl, sym, ap, ◌∙◌, false, [], ◌∷◌, ◌++◌, some, All, arith, length,
  length-append, take-all, leb,
}
use susanin.Prelude.{All-append, All-map}
use susanin.Prelude.Text.{Text, codes, str_eq, c_string, c_string-All}
use susanin.Config.Load.{file_lines, trim_front, trim_back, trim}
use susanin.Config.Write.Lines.{IsByte, file_lines-line, trim_back-newline}
use susanin.Direct.Value.{DirectKind, ip, domain, kind_name, parse_kind, split_at}
use susanin.Direct.Value.Plain.{IsPlain}
use susanin.Direct.Value.Normal.{IsNormal}
use susanin.Direct.Database.{
  Db, line_parts, line_entry, load_entries, db_load, entry_line, entry_lines, file_head, db_text,
}
use susanin.Direct.Database.Valid.{IsEntry, IsValid}
use mathlib.Core.List.{append_assoc, append-nil}

trim_front-plain : (s : Text) → All IsPlain s → trim_front s ≡ s
unfolding trim_front
trim_front-plain [] h = refl
trim_front-plain (c ∷ s) h = ground arith

trim_back-plain : (s : Text) → All IsPlain s → trim_back s ≡ s
unfolding trim_back
trim_back-plain [] h = refl
trim_back-plain (c ∷ s) (p, h) = rw (trim_back-plain s h) (ground arith)

trim-plain : (s : Text) → All IsPlain s → trim s ≡ s
unfolding trim
trim-plain s h = rw (trim_front-plain s h) (trim_back-plain s h)

c_string-plain : (s : Text) → All IsPlain s → c_string (s ++ (10 ∷ [])) ≡ s ++ (10 ∷ [])
c_string-plain s h = c_string-All (s ++ (10 ∷ [])) (
    All-append (λ c. c ≢ 0) s (10 ∷ []) (All-map IsPlain (λ c. c ≢ 0) (λ c p. omega arith) s h)
      (omega arith, tt))

-- A line without its newline.
abbrev body : DirectKind → Text → Text
body kind value = kind_name kind ++ (9 ∷ value)

trim-entry_line :
    (kind : DirectKind) (value : Text)
    → IsNormal kind value
    → trim (c_string (entry_line (record { kind = kind; value = value }))) ≡ body kind value
unfolding entry_line kind_name codes trim trim_front trim_back c_string
trim-entry_line ip value n =
    rw (c_string-plain value n.plain)
      (rw (trim_back-newline value) (rw (trim_back-plain value n.plain) (rw n.given refl)))
trim-entry_line domain value n =
    rw (c_string-plain value n.plain)
      (rw (trim_back-newline value) (rw (trim_back-plain value n.plain) (rw n.given refl)))

line_entry-entry_line :
    (kind : DirectKind) (value : Text)
    → IsNormal kind value
    → line_entry (entry_line (record { kind = kind; value = value })) ≡ some (kind, value)
unfolding line_entry line_parts split_at parse_kind kind_name codes str_eq trim trim_front trim_back
line_entry-entry_line ip value n =
    rw (trim-entry_line ip value n, line_entry)
      (rw (trim_front-plain value n.plain) (rw (trim_back-plain value n.plain) refl))
line_entry-entry_line domain value n =
    rw (trim-entry_line domain value n, line_entry)
      (rw (trim_front-plain value n.plain) (rw (trim_back-plain value n.plain) refl))

body-bytes : (kind : DirectKind) (value : Text) → IsNormal kind value → All IsByte (body kind value)
unfolding kind_name codes
body-bytes ip value n = ground (arith, All-map IsPlain IsByte (λ c p. ground arith) value n.plain)
body-bytes domain value n =
    ground (arith, All-map IsPlain IsByte (λ c p. ground arith) value n.plain)

length-body :
    (kind : DirectKind) (value : Text) → IsNormal kind value → length (body kind value) < 261
unfolding kind_name codes
length-body ip value n = omega (arith, n.short)
length-body domain value n = omega (arith, n.short)

-- A written entry is one line of the file.
file_lines-entry_line :
    (kind : DirectKind) (value rest : Text)
    → IsNormal kind value
    → file_lines 511 [] (entry_line (record { kind = kind; value = value }) ++ rest)
      ≡ entry_line (record { kind = kind; value = value }) ∷ file_lines 511 [] rest
unfolding entry_line
file_lines-entry_line kind value rest n =
    let whole : entry_line (record { kind = kind; value = value }) ≡ body kind value ++ (10 ∷ []) =
      sym (append_assoc (kind_name kind) (9 ∷ value) (10 ∷ [])) in
    rw whole (
      rw (append_assoc (body kind value) (10 ∷ []) rest) (
        file_lines-line (body kind value) rest [] 511 (body-bytes kind value n)
          (omega (arith, length-body kind value n))))

load_entries-entry_lines :
    (db before : Db)
    → All IsEntry db
    → length before + length db ≤ 256
    → load_entries before (file_lines 511 [] (entry_lines db)) ≡ some (before ++ db)
unfolding load_entries entry_lines file_lines
load_entries-entry_lines [] before h n = rw append-nil refl
load_entries-entry_lines (e ∷ db) before (i, h) n =
    let room : leb 256 (length before) ≡ false = ground arith in
    rw (file_lines-entry_line e.kind e.value (entry_lines db) i, load_entries)
      (rw (line_entry-entry_line e.kind e.value i, load_entries)
        (rw room (
          rw i.fixed (
            rw (take-all 255 e.value (omega (arith, i.short))) (
              load_entries-entry_lines db (before ++ (e ∷ [])) h (rw length-append (omega arith))
              ∙ ap (λ l. some l) (append_assoc before (e ∷ []) db))))))

skip_head :
    (rest : Text)
    → load_entries [] (file_lines 511 [] (file_head ++ rest))
      ≡ load_entries [] (file_lines 511 [] rest)
unfolding file_head file_lines load_entries line_entry trim trim_front trim_back c_string codes
skip_head rest = refl

-- A database that fits and holds values in normal form is read back from what `db_save` writes.
pub db_load-db_text : (db : Db) → IsValid db → db_load (some (db_text db)) ≡ some db
unfolding db_load db_text
db_load-db_text db v =
    skip_head (entry_lines db) ∙ load_entries-entry_lines db [] v.normal (omega (arith, v.fits))
