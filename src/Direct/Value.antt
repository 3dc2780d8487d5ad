-- ===== src/Direct/Value.antt =====
-- The values of src/direct.c: `parse_kind`, `normalize_ip`, `normalize_domain`, `normalize_value`.
-- Texts are what the C strings hold; the pointers are never null.
pub mod Plain
pub mod Ip
pub mod Domain
pub mod Normal
use susanin.Prelude.{
  ℕ, ◌+◌, ◌-◌, Bool, true, false, not, ◌&&◌, ◌||◌, List, [], ◌∷◌, ◌++◌, Option, none, some, ltb,
  leb, ◌==◌, if◌then◌else◌, map_some, all, any, length, ◌>>=◌,
}
use susanin.Prelude.Text.{Text, codes, str_eq, copy_to}
use susanin.Prelude.Decimal.{strtoul, decimal, is_empty, is_digit}
use susanin.Prelude.Inet.{inet_pton, inet_ntop}

-- `direct_kind_t`
pub data DirectKind : Type 0 where
  ip : DirectKind
  domain : DirectKind

unfoldable pub kind_name : DirectKind → Text
unfolding codes
kind_name domain = codes "domain"
kind_name ip = codes "ip"

unfoldable pub parse_kind : Text → Option DirectKind
unfolding str_eq codes
parse_kind s =
    if str_eq s (codes "ip") || str_eq s (codes "ipv4")
    then some ip
    else if str_eq s (codes "domain") || str_eq s (codes "dns")
    then some domain
    else none

-- `strchr(s, mark)`: what stands before the first `mark` and behind it.
unfoldable pub split_at : ℕ → Text → Option (Text × Text)
split_at mark [] = none
split_at mark (c ∷ cs) =
    let more = split_at mark cs in
    if c == mark then some ([], cs) else map_some (λ p. (c ∷ p.0, p.1)) more

-- The number behind the slash, at most 32.
unfoldable pub parse_prefix : Text → Option ℕ
parse_prefix s =
    let r = strtoul s in
    if is_empty s || not (is_empty r.end) || ltb 32 r.value then none else some r.value

-- `%s/%u`, for the address of a text.
unfoldable pub canonical_ip : Text → ℕ → Option Text
canonical_ip address prefix =
    map_some (λ a. copy_to 256 (inet_ntop a ++ (b'/' ∷ decimal prefix))) (inet_pton address)

-- An address with the prefix length behind its slash, or 32.
unfoldable pub normalize_ip : Text → Option Text
unfolding split_at parse_prefix canonical_ip
normalize_ip input =
    let found : Option Text = elim (split_at b'/' (copy_to 256 input)) [
      | none ↦ canonical_ip (copy_to 256 input) 32
      | some p ↦ parse_prefix p.1 >>= canonical_ip p.0
    ] in
    if is_empty input then none else found

-- `isalnum` and `tolower` in the C locale.
abbrev pub is_alnum : ℕ → Bool
is_alnum c = is_digit c || (leb b'A' c && leb c b'Z') || (leb b'a' c && leb c b'z')

unfoldable pub to_lower : ℕ → ℕ
to_lower c = if leb b'A' c && leb c b'Z' then c + 32 else c

abbrev pub is_label_char : ℕ → Bool
is_label_char c = is_alnum c || c == b'-'

-- The first and the last byte of a text.
abbrev pub starts_dash : Text → Bool
starts_dash [] = false
starts_dash (c ∷ cs) = c == b'-'

unfoldable pub ends_dash : Text → Bool
ends_dash [] = false
ends_dash (c ∷ cs) = if is_empty cs then c == b'-' else ends_dash cs

unfoldable pub valid_domain_label : Text → Bool
unfolding ends_dash
valid_domain_label label =
    if is_empty label || ltb 63 (length label)
    then false
    else if starts_dash label || ends_dash label
    then false
    else all is_label_char label

-- The loop over the labels; `label` is what it has read of the current one. Behind a dot that ends the
-- text the loop ends.
unfoldable pub valid_labels : Text → Text → Bool
unfolding valid_domain_label
valid_labels label [] = is_empty label || valid_domain_label label
valid_labels label (c ∷ cs) = elim (c == b'.') [
  | true ↦ valid_domain_label label && valid_labels [] cs
  | false ↦ valid_labels (label ++ (c ∷ [])) cs
]

unfoldable pub strip_dots : Text → Text
strip_dots [] = []
strip_dots (c ∷ cs) =
    let rest = strip_dots cs in if is_empty rest && c == b'.' then [] else c ∷ rest

abbrev pub has_dot : Text → Bool
has_dot = any (λ c. c == b'.')

unfoldable pub lower : Text → Text
unfolding to_lower
lower [] = []
lower (c ∷ cs) = to_lower c ∷ lower cs

-- A name without the dots that end it, in lower case.
unfoldable pub normalize_domain : Text → Option Text
unfolding strip_dots valid_labels lower
normalize_domain input =
    let name = strip_dots (copy_to 256 input) in
    if is_empty input || leb 254 (length input)
    then none
    else if is_empty name || not (has_dot name)
    then none
    else if valid_labels [] (lower name)
    then some (copy_to 256 (lower name))
    else none

unfoldable pub normalize_value : DirectKind → Text → Option Text
unfolding normalize_ip normalize_domain
normalize_value ip input = normalize_ip input
normalize_value domain input = normalize_domain input
