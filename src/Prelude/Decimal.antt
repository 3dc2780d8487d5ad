-- ===== src/Prelude/Decimal.antt =====
-- Numbers in text: `%u`, and `strtoul(s, &end, 10)` for a 64-bit `unsigned long`.
pub mod RoundTrip
use Prim.Native.Nat.{ℕ, zero, suc, ◌+◌, ◌-◌, ◌*◌, ◌/◌, ◌%◌, ◌^◌}
use mathlib.Core.Bool.{Bool, true, false, ◌&&◌, ◌||◌}
use mathlib.Core.List.{List, [], ◌∷◌}
use mathlib.Core.Option.{Option, none, some}
use susanin.Prelude.Tests.{ltb, leb, ◌==◌, if◌then◌else◌}
use susanin.Prelude.Text.{Text}

-- Digits from the last to the first, put in front of `out`.
unfoldable pub print_loop : ℕ → ℕ → Text → Text
print_loop zero n out = out
print_loop (suc fuel) n out =
    let more = print_loop fuel (n / 10) ((b'0' + n % 10) ∷ out) in
    if n / 10 == 0 then (b'0' + n % 10) ∷ out else more

-- `%u`. A number has no more digits than one more than itself.
unfoldable pub decimal : ℕ → Text
decimal n = print_loop (suc n) n []

abbrev pub is_digit : ℕ → Bool
is_digit c = leb b'0' c && leb c b'9'

-- `isspace` in the C locale.
abbrev pub is_space : ℕ → Bool
is_space c = c == b' ' || (leb 9 c && leb c 13)

unfoldable pub skip_space : Text → Text
skip_space [] = []
skip_space (c ∷ cs) = if is_space c then skip_space cs else c ∷ cs

-- The value of the digits in front, and what follows them.
unfoldable pub read_digits : ℕ → Text → ℕ × Text
read_digits n [] = (n, [])
read_digits n (c ∷ cs) =
    let more = read_digits (n * 10 + (c - b'0')) cs in if is_digit c then more else (n, c ∷ cs)

abbrev pub ulong_max : ℕ
ulong_max = 2 ^ 64 - 1

-- The number, where reading stopped, and whether `errno` was set to ERANGE.
pub record Strtoul : Type 0 where
  pub value : ℕ
  pub end : Text
  pub overflow : Bool

-- A number with its sign read; the sign negates modulo 2 ^ 64.
unfoldable pub signed_value : Bool → ℕ × Text → Strtoul
signed_value negative (n, rest) =
    if ltb ulong_max n then record { value = ulong_max; end = rest; overflow = true } else record {
      value = if negative then (2 ^ 64 - n) % 2 ^ 64 else n;
      end = rest;
      overflow = false;
    }

-- Behind the sign there must be a digit; otherwise nothing is read and `end` is the whole text.
unfoldable pub number_at : Text → Bool → Text → Strtoul
number_at all negative [] = record { value = 0; end = all; overflow = false }
number_at all negative (c ∷ cs) =
    if is_digit c
    then signed_value negative (read_digits 0 (c ∷ cs))
    else record { value = 0; end = all; overflow = false }

unfoldable pub after_sign : Text → Text → Strtoul
unfolding number_at
after_sign all [] = number_at all false []
after_sign all (c ∷ cs) =
    if c == b'-'
    then number_at all true cs
    else if c == b'+'
    then number_at all false cs
    else number_at all false (c ∷ cs)

unfoldable pub strtoul : Text → Strtoul
unfolding after_sign signed_value
strtoul s = after_sign s (skip_space s)

abbrev pub is_empty : Text → Bool
is_empty [] = true
is_empty (c ∷ cs) = false
