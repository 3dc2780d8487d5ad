-- ===== src/Gc/Names/RoundTrip.antt =====
-- About `parse_port` and `parse_lazy_comment` of src/gc.c.
use susanin.Prelude.{ℕ, ◌<◌, ◌≤◌, ◌≡◌, ◌≢◌, inl, inr, refl, ap, true, false, [], ◌∷◌, ◌++◌}
use susanin.Prelude.{some, length, length-append, arith, Bool-cases}
use susanin.Prelude.Text.{Text, codes, str_eq, str_eq_iff}
use susanin.Prelude.Decimal.{decimal, skip_space}
use susanin.Prelude.Decimal.RoundTrip.{
  strtoul-decimal, strtoul-blank_decimal, decimal-ne-empty, StopsHere,
}
use susanin.Gc.Names.{
  Kind, test, ok, parse_port, parse_lazy_comment, scan_literal, scan_word, scan_unsigned,
  word_chars, is_proto, lazy_state, lazy_name,
}
use mathlib.Core.List.{append-nil}

-- A port in the range of TCP and UDP.
abbrev pub IsPort : ℕ → Type 0
IsPort p = (p ≢ 0) × (p ≤ 65535)

-- Every port is read back from its digits.
pub parse_port-decimal : (p : ℕ) → IsPort p → parse_port (some (decimal p)) ≡ some p
unfolding parse_port
parse_port-decimal p (nonzero, small) = ground (
  arith,
  append-nil (decimal p),
  decimal-ne-empty p,
  strtoul-decimal p [] (omega (arith, small)) tt,
)

-- What the RouterOS scripts write for a state.
abbrev pub state_word : Kind → Text
state_word test = codes "TEST"
state_word ok = codes "OK"

-- The comment of a lazy rule: `AUTO-AWG: P <proto> <port> <TEST|OK>`.
abbrev pub lazy_comment : Text → ℕ → Kind → Text
lazy_comment proto port kind =
    codes "AUTO-AWG: P " ++ proto ++ (b' ' ∷ (decimal port ++ (b' ' ∷ state_word kind)))

str_eq_longer : (a b : Text) → length a < length b → str_eq a b ≡ false
str_eq_longer a b h = elim (Bool-cases (str_eq a b)) [
  | inl e ↦ absurd (omega (arith, ap length ((str_eq_iff a b).0 e)))
  | inr e ↦ e
]

scan_unsigned-decimal :
    (p : ℕ) (rest : Text)
    → IsPort p
    → StopsHere rest
    → scan_unsigned (b' ' ∷ (decimal p ++ rest)) ≡ some (p, rest)
unfolding scan_unsigned
scan_unsigned-decimal p rest (nonzero, small) stop = ground (
  arith,
  strtoul-blank_decimal p rest (omega (arith, small)) stop,
  str_eq_longer rest (b' ' ∷ (decimal p ++ rest)) (omega (arith, length-append (decimal p) rest)),
)

-- The tests behind the `sscanf` accept every port in range.
lazy_name-IsPort :
    (proto : Text) (p : ℕ) (kind : Kind)
    → is_proto proto ≡ true
    → IsPort p
    → lazy_name proto p (state_word kind) ≡ some (record { proto = proto; port = p; kind = kind })
unfolding lazy_name lazy_state codes str_eq
lazy_name-IsPort proto p test known (nonzero, small) = ground arith
lazy_name-IsPort proto p ok known (nonzero, small) = ground arith

-- The protocol of the comment, then the number, then the state.
parse_tcp :
    (p : ℕ) (kind : Kind)
    → IsPort p
    → parse_lazy_comment (lazy_comment (codes "tcp") p kind)
      ≡ some (record { proto = codes "tcp"; port = p; kind = kind })
unfolding parse_lazy_comment scan_literal scan_word word_chars skip_space codes
parse_tcp p test i =
    rw (scan_unsigned-decimal p (b' ' ∷ codes "TEST") i refl)
      (lazy_name-IsPort (codes "tcp") p test (unfold is_proto str_eq in refl) i)
parse_tcp p ok i =
    rw (scan_unsigned-decimal p (b' ' ∷ codes "OK") i refl)
      (lazy_name-IsPort (codes "tcp") p ok (unfold is_proto str_eq in refl) i)

parse_udp :
    (p : ℕ) (kind : Kind)
    → IsPort p
    → parse_lazy_comment (lazy_comment (codes "udp") p kind)
      ≡ some (record { proto = codes "udp"; port = p; kind = kind })
unfolding parse_lazy_comment scan_literal scan_word word_chars skip_space codes
parse_udp p test i =
    rw (scan_unsigned-decimal p (b' ' ∷ codes "TEST") i refl)
      (lazy_name-IsPort (codes "udp") p test (unfold is_proto str_eq in refl) i)
parse_udp p ok i =
    rw (scan_unsigned-decimal p (b' ' ∷ codes "OK") i refl)
      (lazy_name-IsPort (codes "udp") p ok (unfold is_proto str_eq in refl) i)

-- Every comment `AUTO-AWG: P <proto> <port> <TEST|OK>` with a protocol that the collection knows and
-- a port in range is parsed to exactly these three.
pub parse_lazy_comment-lazy_comment :
    (proto : Text) (p : ℕ) (kind : Kind)
    → is_proto proto ≡ true
    → IsPort p
    → parse_lazy_comment (lazy_comment proto p kind)
      ≡ some (record { proto = proto; port = p; kind = kind })
unfolding is_proto
parse_lazy_comment-lazy_comment proto p kind known i =
    elim (Bool-cases (str_eq proto (codes "tcp"))) [
      | inl e ↦ rw ((str_eq_iff proto (codes "tcp")).0 e) (parse_tcp p kind i)
      | inr e ↦ rw ((str_eq_iff proto (codes "udp")).0 (ground arith)) (parse_udp p kind i)
    ]
