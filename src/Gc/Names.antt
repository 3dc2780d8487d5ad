-- ===== src/Gc/Names.antt =====
-- Budgets, names and the small parsers of src/gc.c.
pub mod RoundTrip
use susanin.Prelude.{
  ℕ, ◌+◌, ◌%◌, ◌^◌, ◌≡◌, Bool, true, false, not, ◌&&◌, ◌||◌, List, [], ◌∷◌, ◌++◌, Option, none,
}
use susanin.Prelude.{some, ltb, ◌==◌, if◌then◌else◌, zero, suc, ◌>>=◌}
use susanin.Prelude.Text.{Text, codes, str_eq, copy_to}
use susanin.Prelude.Decimal.{decimal, strtoul, Strtoul, skip_space, is_space, is_empty}

abbrev pub lazy_test_budget : ℕ
lazy_test_budget = 4

abbrev pub lazy_ok_budget : ℕ
lazy_ok_budget = 4

abbrev pub mark_test_budget : ℕ
mark_test_budget = 2

abbrev pub mark_ok_budget : ℕ
mark_ok_budget = 2

-- `SUSANIN_GC_TOTAL_BUDGET`
abbrev pub total_budget : ℕ
total_budget = 12

abbrev pub max_lazy : ℕ
max_lazy = 128

abbrev pub max_marks : ℕ
max_marks = 128

abbrev pub mark_scan_retries : ℕ
mark_scan_retries = 3

abbrev pub mark_verify_retries : ℕ
mark_verify_retries = 20

unfoldable pub prod_names : List Text
prod_names =
    codes "auto-awg-health"
    ∷ codes "auto-awg-fast"
    ∷ codes "auto-awg-detect"
    ∷ codes "auto-awg-judge"
    ∷ []

unfoldable pub fixed_comments : List Text
fixed_comments =
    codes "AUTO-AWG: L2 mark confirmed"
    ∷ codes "AUTO-AWG: L1 mark test"
    ∷ codes "AUTO-AWG: L2 mark confirmed UDP"
    ∷ codes "AUTO-AWG: L1 mark test UDP"
    ∷ codes "AUTO-AWG: L2 route confirmed"
    ∷ codes "AUTO-AWG: L1 route test"
    ∷ codes "AUTO-AWG: router DNS UDP via tunnel"
    ∷ codes "AUTO-AWG: router DNS TCP via tunnel"
    ∷ []

-- `gc_kind_t`
pub data Kind : Type 0 where
  test : Kind
  ok : Kind

unfoldable pub kind_eq : Kind → Kind → Bool
kind_eq test test = true
kind_eq test ok = false
kind_eq ok test = false
kind_eq ok ok = true

unfoldable pub mark_name : Kind → Text
mark_name test = codes "auto-awg-test-conn"
mark_name ok = codes "auto-awg-ok-conn"

unfoldable pub state_name : Kind → Text
state_name test = codes "test"
state_name ok = codes "ok"

unfoldable pub parse_port : Option Text → Option ℕ
parse_port none = none
parse_port (some value) =
    let r = strtoul value in
    if is_empty value || not (is_empty r.end) || r.value == 0 || ltb 65535 r.value
    then none
    else some r.value

-- `make_state_list`, into a buffer of 128 bytes.
unfoldable pub make_state_list : Text → Text → ℕ → Text
make_state_list family proto port =
    copy_to 128 (codes "auto_awg_" ++ family ++ codes "_" ++ proto ++ codes "_" ++ decimal port)

-- The characters of a `%<width>s`, and what follows them.
unfoldable pub word_chars : ℕ → Text → Text × Text
word_chars zero s = ([], s)
word_chars (suc width) [] = ([], [])
word_chars (suc width) (c ∷ cs) =
    let (w, rest) = word_chars width cs in if is_space c then ([], c ∷ cs) else (c ∷ w, rest)

-- `%<width>s` skips blanks and matches one character at least.
unfoldable pub scan_word : ℕ → Text → Option (Text × Text)
scan_word width s =
    let (w, rest) = word_chars width (skip_space s) in if is_empty w then none else some (w, rest)

-- `%u` stores the number modulo 2 ^ 32; `strtoul` reads nothing where no digit stands.
unfoldable pub scan_unsigned : Text → Option (ℕ × Text)
scan_unsigned s =
    let r = strtoul s in if str_eq r.end s then none else some (r.value % 2 ^ 32, r.end)

-- A literal of a format: a blank matches any number of blanks.
unfoldable pub scan_literal : Text → Text → Option Text
scan_literal [] s = some s
scan_literal (c ∷ cs) [] = if is_space c then scan_literal cs [] else none
scan_literal (c ∷ cs) (d ∷ ds) =
    if is_space c
    then scan_literal cs (skip_space (d ∷ ds))
    else if c == d
    then scan_literal cs ds
    else none

-- A comment of a lazy rule.
pub record LazyName : Type 0 where
  pub proto : Text
  pub port : ℕ
  pub kind : Kind

unfoldable pub lazy_state : Text → Option Kind
lazy_state state =
    if str_eq state (codes "TEST")
    then some test
    else if str_eq state (codes "OK")
    then some ok
    else none

unfoldable pub is_proto : Text → Bool
is_proto proto = str_eq proto (codes "tcp") || str_eq proto (codes "udp")

-- The tests behind the `sscanf` of `parse_lazy_comment`, when it filled three fields and found no more.
unfoldable pub lazy_name : Text → ℕ → Text → Option LazyName
lazy_name proto port state =
    if not (is_proto proto) || port == 0 || ltb 65535 port then none else (elim (lazy_state state) [
      | none ↦ none
      | some kind ↦ some (record { proto = proto; port = port; kind = kind })
    ])

-- `sscanf(comment, "AUTO-AWG: P %7s %u %7s %c", ...) == 3` and the tests behind it.
unfoldable pub parse_lazy_comment : Text → Option LazyName
unfolding lazy_name
parse_lazy_comment comment = do
  s1 ← scan_literal (codes "AUTO-AWG: P ") comment
  (proto, s2) ← scan_word 7 s1
  (port, s3) ← scan_unsigned s2
  (state, s4) ← scan_word 7 s3
  if is_empty (skip_space s4) then lazy_name proto port state else none
