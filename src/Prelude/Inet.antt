-- ===== src/Prelude/Inet.antt =====
-- IPv4 addresses in text: `inet_pton` and `inet_ntop` for AF_INET.
pub mod RoundTrip
use Prim.Native.Nat.{ℕ, ◌+◌, ◌-◌, ◌*◌}
use mathlib.Core.Bool.{Bool, true, false, ◌&&◌, ◌||◌}
use mathlib.Core.List.{List, [], ◌∷◌, ◌++◌}
use mathlib.Core.Option.{Option, none, some}
use susanin.Prelude.Tests.{ltb, leb, ◌==◌, if◌then◌else◌, ◌>>=◌}
use susanin.Prelude.Text.{Text}
use susanin.Prelude.Decimal.{is_digit, decimal}

-- `struct in_addr`, byte by byte.
pub record InAddr : Type 0 where
  pub a : ℕ
  pub b : ℕ
  pub c : ℕ
  pub d : ℕ

-- One digit behind the value so far; `saw` tells that the octet has a digit already. A leading zero and
-- a value past a byte are refused.
unfoldable pub octet_digit : ℕ → Bool → ℕ → Option (ℕ × Bool)
octet_digit cur saw c =
    if (saw && cur == 0) || ltb 255 (cur * 10 + (c - b'0'))
    then none
    else some (cur * 10 + (c - b'0'), true)

-- The address, when the text ends behind its fourth octet.
unfoldable pub four_octets : List ℕ → ℕ → Bool → Option InAddr
four_octets (a ∷ b ∷ c ∷ []) cur true = some (record { a = a; b = b; c = c; d = cur })
four_octets _ cur saw = none

unfoldable pub pton_loop : List ℕ → ℕ → Bool → Text → Option InAddr
unfolding octet_digit four_octets
pton_loop octets cur saw [] = four_octets octets cur saw
pton_loop octets cur saw (c ∷ cs) = elim (is_digit c) [
  | true ↦ octet_digit cur saw c >>= (λ p. pton_loop octets p.0 p.1 cs)
  | false ↦ elim (c == b'.' && saw) [
    | true ↦ pton_loop (octets ++ (cur ∷ [])) 0 false cs
    | false ↦ none
  ]
]

unfoldable pub inet_pton : Text → Option InAddr
unfolding pton_loop
inet_pton s = pton_loop [] 0 false s

unfoldable pub inet_ntop : InAddr → Text
inet_ntop i =
    decimal i.a ++ (b'.' ∷ (decimal i.b ++ (b'.' ∷ (decimal i.c ++ (b'.' ∷ decimal i.d)))))
