-- ===== src/Config/Write/Lines.antt =====
-- About one line of the settings file of src/config.c.
use susanin.Prelude.{
  ℕ, ◌+◌, ◌-◌, ◌≤◌, ◌<◌, ◌≡◌, ◌≢◌, refl, sym, ap, ◌∙◌, Bool, true, false, not, ◌&&◌, ◌||◌, [], ◌∷◌,
  ◌++◌, Option, none, some, ◌==◌, if◌then◌else◌, map_some,
}
use susanin.Prelude.{length, length-append, leb, all, All, All-append, All-map, arith}
use susanin.Prelude.Text.{Text, c_string, c_string-All}
use susanin.Prelude.Decimal.{is_empty}
use susanin.Config.Options.{Settings}
use susanin.Config.Load.{
  file_lines, is_blank, trim_front, trim_back, trim, split_at_eq, key_value, apply_line, load_lines,
}
use susanin.Config.Write.{option_line}
use mathlib.Core.List.{append_assoc, append-nil}

-- A byte of a line: neither the newline nor the NUL.
abbrev pub IsByte : ℕ → Type 0
IsByte c = (c ≢ 10) × (c ≢ 0)

-- A value that a line can carry: bytes that fit, with no blanks around them.
pub record IsValue (size : ℕ) (value : Text) : Type 0 where
  pub given : is_empty value ≡ false
  pub bytes : All IsByte value
  pub front : trim_front value ≡ value
  pub back : trim_back value ≡ value
  pub fits : length value ≤ size

-- A key: bytes that are neither blank, `=` nor `#`.
pub record IsKey (key : Text) : Type 0 where
  pub given : is_empty key ≡ false
  pub bytes : All (λ c. IsByte c × (c ≢ b'=') × (c ≢ b'#') × (is_blank c ≡ false) × (c ≢ 13)) key
  pub fits : length key ≤ 30

pub file_lines-line :
    (l rest line : Text) (left : ℕ)
    → All IsByte l
    → length l + 1 < left
    → file_lines left line (l ++ (10 ∷ rest)) ≡ (line ++ (l ++ (10 ∷ []))) ∷ file_lines 511 [] rest
unfolding file_lines
file_lines-line [] rest line left h n = refl
file_lines-line (c ∷ l) rest line left (b, h) n =
    let goes_on : (c == 10 || left == 1) ≡ false = ground arith in
    rw (goes_on, file_lines)
      (file_lines-line l rest (line ++ (c ∷ [])) (left - 1) h (omega (arith, n))
        ∙ ap (λ t. t ∷ file_lines 511 [] rest) (append_assoc line (c ∷ []) (l ++ (10 ∷ []))))

pub trim_back-newline : (s : Text) → trim_back (s ++ (10 ∷ [])) ≡ trim_back s
unfolding trim_back
trim_back-newline [] = refl
trim_back-newline (c ∷ s) = rw (trim_back-newline s) refl

append-ne-empty : (u v : Text) → is_empty v ≡ false → is_empty (u ++ v) ≡ false
append-ne-empty [] v h = h
append-ne-empty (c ∷ u) v h = refl

trim_back-append : (u v : Text) → is_empty v ≡ false → trim_back v ≡ v → trim_back (u ++ v) ≡ u ++ v
unfolding trim_back
trim_back-append [] v h e = e
trim_back-append (c ∷ u) v h e =
    rw (trim_back-append u v h e) (ground (arith, append-ne-empty u v h))

split_at_eq-line :
    (key value : Text)
    → All (λ c. c ≢ b'=') key
    → split_at_eq (key ++ (b'=' ∷ value)) ≡ some (key, value)
unfolding split_at_eq
split_at_eq-line [] value h = refl
split_at_eq-line (c ∷ key) value (n, h) = rw (split_at_eq-line key value h) (ground arith)

IsKey-bytes : (key : Text) → IsKey key → All IsByte key
IsKey-bytes key k = All-map _ IsByte (λ c h. h.0) key k.bytes

IsKey-front : (key rest : Text) → IsKey key → trim_front (key ++ rest) ≡ key ++ rest
unfolding trim_front
IsKey-front [] rest k = cc
IsKey-front (c ∷ key) rest k = ground (arith, k.bytes)

IsKey-back :
    (key : Text)
    → All (λ c. IsByte c × (c ≢ b'=') × (c ≢ b'#') × (is_blank c ≡ false) × (c ≢ 13)) key
    → trim_back key ≡ key
unfolding trim_back
IsKey-back [] h = refl
IsKey-back (c ∷ key) (b, h) = rw (IsKey-back key h) (ground arith)

trim-IsKey : (key : Text) → IsKey key → trim key ≡ key
unfolding trim
trim-IsKey key k =
    let front : trim_front key ≡ key = rw append-nil at (IsKey-front key [] k) in
    rw front (IsKey-back key k.bytes)

trim-IsValue : {size : ℕ} (value : Text) → IsValue size value → trim value ≡ value
unfolding trim
trim-IsValue value v = rw v.front v.back

-- The value behind its `=`.
eq_back : {size : ℕ} (value : Text) → IsValue size value → trim_back (b'=' ∷ value) ≡ b'=' ∷ value
unfolding trim_back
eq_back value v = rw v.back (ground (arith, v.given))

trim-option_line :
    {size : ℕ} (key value : Text)
    → IsKey key
    → IsValue size value
    → trim (option_line key value) ≡ key ++ (b'=' ∷ value)
unfolding trim option_line
trim-option_line key value k v = rw (IsKey-front key (b'=' ∷ (value ++ (10 ∷ []))) k) (
    rw (sym (append_assoc key (b'=' ∷ value) (10 ∷ []))) (
      trim_back-newline (key ++ (b'=' ∷ value))
      ∙ trim_back-append key (b'=' ∷ value) refl (eq_back value v)))

option_line-bytes :
    {size : ℕ} (key value : Text)
    → IsKey key
    → IsValue size value
    → All IsByte (key ++ (b'=' ∷ value))
option_line-bytes key value k v =
    All-append IsByte key (b'=' ∷ value) (IsKey-bytes key k) ((omega arith, omega arith), v.bytes)

option_line_lem : (key value : Text) → option_line key value ≡ (key ++ (b'=' ∷ value)) ++ (10 ∷ [])
unfolding option_line
option_line_lem key value = sym (append_assoc key (b'=' ∷ value) (10 ∷ []))

c_string-option_line :
    {size : ℕ} (key value : Text)
    → IsKey key
    → IsValue size value
    → c_string (option_line key value) ≡ option_line key value
c_string-option_line key value k v = rw (option_line_lem key value) (
    c_string-All ((key ++ (b'=' ∷ value)) ++ (10 ∷ [])) (
      All-append (λ c. c ≢ 0) (key ++ (b'=' ∷ value)) (10 ∷ [])
        (All-map IsByte (λ c. c ≢ 0) (λ c h. h.1) (key ++ (b'=' ∷ value))
          (option_line-bytes key value k v))
        (omega arith, tt)))

key_value_start :
    (key value : Text) (k : IsKey key)
    → (elim (key ++ (b'=' ∷ value)) as (λ s. Option (Text × Text)) [
      | [] ↦ none
      | c ∷ cs ↦
          if c == b'#' then none else map_some (λ p. (trim p.0, trim p.1)) (split_at_eq (c ∷ cs))
    ])
      ≡ map_some (λ p. (trim p.0, trim p.1)) (split_at_eq (key ++ (b'=' ∷ value)))
key_value_start [] value k = cc
key_value_start (c ∷ key) value k = ground (arith, k.bytes)

-- The key and the value of a written line.
pub key_value-option_line :
    {size : ℕ} (key value : Text)
    → IsKey key
    → IsValue size value
    → key_value (option_line key value) ≡ some (key, value)
unfolding key_value
key_value-option_line key value k v =
    let splits = split_at_eq-line key value (All-map _ (λ c. c ≢ b'=') (λ c h. h.1) key k.bytes) in
    rw (c_string-option_line key value k v, key_value)
      (rw (trim-option_line key value k v) (
        key_value_start key value k
        ∙ rw splits (rw (trim-IsKey key k) (rw (trim-IsValue value v) refl))))

-- A written line is one line of the file.
file_lines-option_line :
    {size : ℕ} (key value rest : Text)
    → IsKey key
    → IsValue size value
    → size ≤ 255
    → file_lines 511 [] (option_line key value ++ rest)
      ≡ option_line key value ∷ file_lines 511 [] rest
file_lines-option_line key value rest k v small = rw (option_line_lem key value) (
    rw (append_assoc (key ++ (b'=' ∷ value)) (10 ∷ []) rest) (
      file_lines-line (key ++ (b'=' ∷ value)) rest [] 511 (option_line-bytes key value k v)
        (omega (arith, length-append key (b'=' ∷ value), k.fits, v.fits, small))))

-- Reading a written line applies its key and its value.
pub load_lines-option_line :
    {size : ℕ} (cfg : Settings) (key value rest : Text)
    → IsKey key
    → IsValue size value
    → size ≤ 255
    → load_lines cfg (file_lines 511 [] (option_line key value ++ rest))
      ≡ load_lines (apply_line cfg key value) (file_lines 511 [] rest)
unfolding load_lines
load_lines-option_line cfg key value rest k v small =
    rw (file_lines-option_line key value rest k v small)
      (rw (key_value-option_line key value k v, load_lines) refl)

-- The test of a key's bytes.
abbrev pub is_key_byte : ℕ → Bool
is_key_byte c =
    not (c == 10)
    && not (c == 0)
    && not (c == b'=')
    && not (c == b'#')
    && not (is_blank c)
    && not (c == 13)

pub key_bytes :
    (key : Text)
    → all is_key_byte key ≡ true
    → All (λ c. IsByte c × (c ≢ b'=') × (c ≢ b'#') × (is_blank c ≡ false) × (c ≢ 13)) key
key_bytes [] h = tt
key_bytes (c ∷ key) h = (ground arith, key_bytes key (ground arith))

pub IsKey-all :
    (key : Text)
    → is_empty key ≡ false
    → all is_key_byte key ≡ true
    → leb (length key) 30 ≡ true
    → IsKey key
IsKey-all key g b f = record { given = g; bytes = key_bytes key b; fits = ground arith }
