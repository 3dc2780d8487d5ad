-- ===== src/StateCleanup/Match/Port.antt =====
-- About `port_suffix_valid` of src/state_cleanup.c.
use susanin.Prelude.{ℕ, ◌+◌, ◌-◌, ◌*◌, ◌%◌, ◌^◌, ◌≤◌, ◌≡◌, refl, true, ◌↔◌, [], ◌∷◌}
use susanin.Prelude.{◌≢◌, All, arith}
use susanin.Prelude.Text.{Text}
use susanin.StateCleanup.Match.{port_loop, port_suffix_valid}

abbrev pub IsDigit : ℕ → Type 0
IsDigit c = (b'0' ≤ c) × (c ≤ b'9')

-- The decimal value of a text behind the digits read so far.
abbrev pub decimal_from : ℕ → Text → ℕ
decimal_from n [] = n
decimal_from n (c ∷ cs) = decimal_from (n * 10 + (c - b'0')) cs

le-decimal_from : (n : ℕ) (s : Text) → n ≤ decimal_from n s
le-decimal_from n [] = omega arith
le-decimal_from n (c ∷ cs) = omega (arith, le-decimal_from (n * 10 + (c - b'0')) cs)

port_loop_iff :
    (n : ℕ) (s : Text)
    → n ≤ 65535
    → (port_loop n s ≡ true) ↔ (All IsDigit s × (decimal_from n s ≤ 65535))
unfolding port_loop
port_loop_iff n [] h = ground arith
port_loop_iff n (c ∷ cs) h =
    let m = n * 10 + (c - b'0') in
    (
      λ p. ground (arith, port_loop_iff (m % 2 ^ 64) cs),
      λ p. ground (arith, port_loop_iff (m % 2 ^ 64) cs, le-decimal_from m cs),
    )

-- A suffix is a port exactly when it is a nonempty run of digits whose value fits 16 bits: the early
-- exit keeps the accumulator from wrapping.
pub port_suffix_valid_iff :
    (s : Text)
    → (port_suffix_valid s ≡ true) ↔ ((s ≢ []) × All IsDigit s × (decimal_from 0 s ≤ 65535))
unfolding port_suffix_valid
port_suffix_valid_iff [] = ((λ p. cc), (λ p. absurd (p.0 refl)))
port_suffix_valid_iff (c ∷ cs) = (
  (λ p. let (d, v) = (port_loop_iff 0 (c ∷ cs) (omega arith)).0 p in ((λ e. cc), d, v)),
  (λ p. (port_loop_iff 0 (c ∷ cs) (omega arith)).1 (p.1, p.2)),
)
