-- ===== src/Prelude/Decimal/RoundTrip.antt =====
-- About `strtoul` on what `%u` printed.
use Prim.Native.Nat.{ℕ, zero, suc, ◌+◌, ◌/◌, ◌%◌, ◌^◌, ◌<◌, ◌≤◌}
use mathlib.Core.Bool.{true, false}
use mathlib.Core.List.{[], ◌∷◌, ◌++◌, append-nil}
use mathlib.Core.Path.{◌≡◌, refl, ◌∙◌}
use mathlib.Core.Logic.{inl, inr}
use native.Mathlib.Omega.{arith}
use susanin.Prelude.Tests.{◌==◌, Bool-cases}
use native.Mathlib.Nat.{pow-suc}
use susanin.Prelude.Lists.{All, length}
use susanin.Prelude.Text.{Text}
use susanin.Prelude.Decimal.{
  print_loop, decimal, is_digit, skip_space, read_digits, signed_value, number_at, strtoul,
  is_empty,
}

-- A text without digits in front, behind which reading stops.
abbrev pub StopsHere : Text → Type 0
StopsHere [] = Unit
StopsHere (c ∷ cs) = is_digit c ≡ false

read_digits_stop : (n : ℕ) (rest : Text) → StopsHere rest → read_digits n rest ≡ (n, rest)
unfolding read_digits
read_digits_stop n [] h = refl
read_digits_stop n (c ∷ cs) h = ground arith

print_loop-read :
    (fuel n : ℕ) (out : Text) → n < fuel → read_digits 0 (print_loop fuel n out) ≡ read_digits n out
unfolding print_loop read_digits
print_loop-read zero n out h = absurd (omega arith)
print_loop-read (suc fuel) n out h =
    ground (arith, print_loop-read fuel (n / 10) ((b'0' + n % 10) ∷ out))

print_loop-append :
    (fuel n : ℕ) (out rest : Text) → print_loop fuel n out ++ rest ≡ print_loop fuel n (out ++ rest)
unfolding print_loop
print_loop-append zero n out rest = refl
print_loop-append (suc fuel) n out rest =
    ground (arith, print_loop-append fuel (n / 10) ((b'0' + n % 10) ∷ out) rest)

-- A printed number is not empty and starts with a digit.
pub record IsNumber (s : Text) : Type 0 where
  pub first : ℕ
  pub others : Text
  pub splits : s ≡ first ∷ others
  pub digit : is_digit first ≡ true

print_loop-IsNumber : (fuel n : ℕ) (out : Text) → n < fuel → IsNumber (print_loop fuel n out)
unfolding print_loop
print_loop-IsNumber zero n out h = absurd (omega arith)
print_loop-IsNumber (suc fuel) n out h = elim (Bool-cases (n / 10 == 0)) [
  | inl e ↦
      rw e (record { first = b'0' + n % 10; others = out; splits = refl; digit = ground arith })
  | inr e ↦ rw e (print_loop-IsNumber fuel (n / 10) ((b'0' + n % 10) ∷ out) (ground arith))
]

decimal-IsNumber : (n : ℕ) (rest : Text) → IsNumber (decimal n ++ rest)
unfolding decimal
decimal-IsNumber n rest =
    rw (print_loop-append (suc n) n [] rest) (print_loop-IsNumber (suc n) n rest (omega arith))

pub read_digits-decimal :
    (n : ℕ) (rest : Text) → StopsHere rest → read_digits 0 (decimal n ++ rest) ≡ (n, rest)
unfolding decimal
read_digits-decimal n rest h =
    rw (print_loop-append (suc n) n [] rest)
      (print_loop-read (suc n) n rest (omega arith) ∙ read_digits_stop n rest h)

strtoul_number : (s : Text) (i : IsNumber s) → strtoul s ≡ signed_value false (read_digits 0 s)
unfolding strtoul skip_space number_at
strtoul_number s i = rw i.splits (ground (arith, i.digit))

-- A printed number of 64 bits is read back, up to what follows it.
pub strtoul-decimal :
    (n : ℕ) (rest : Text)
    → n < 2 ^ 64
    → StopsHere rest
    → strtoul (decimal n ++ rest) ≡ record { value = n; end = rest; overflow = false }
unfolding signed_value
strtoul-decimal n rest h stop =
    strtoul_number (decimal n ++ rest) (decimal-IsNumber n rest)
    ∙ rw (read_digits-decimal n rest stop) (ground arith)

strtoul_blank :
    (s : Text) (i : IsNumber s) → strtoul (b' ' ∷ s) ≡ signed_value false (read_digits 0 s)
unfolding strtoul skip_space number_at
strtoul_blank s i = rw i.splits (ground (arith, i.digit))

-- So is one behind a blank.
pub strtoul-blank_decimal :
    (n : ℕ) (rest : Text)
    → n < 2 ^ 64
    → StopsHere rest
    → strtoul (b' ' ∷ (decimal n ++ rest)) ≡ record { value = n; end = rest; overflow = false }
unfolding signed_value
strtoul-blank_decimal n rest h stop =
    strtoul_blank (decimal n ++ rest) (decimal-IsNumber n rest)
    ∙ rw (read_digits-decimal n rest stop) (ground arith)

-- A printed number is not empty.
pub decimal-ne-empty : (n : ℕ) → is_empty (decimal n) ≡ false
decimal-ne-empty n =
    let i = decimal-IsNumber n [] in ground (arith, append-nil (decimal n), i.splits)

print_loop-digits :
    (fuel n : ℕ) (out : Text)
    → All (λ c. is_digit c ≡ true) out
    → All (λ c. is_digit c ≡ true) (print_loop fuel n out)
unfolding print_loop
print_loop-digits zero n out h = h
print_loop-digits (suc fuel) n out h =
    let more = print_loop-digits fuel (n / 10) ((b'0' + n % 10) ∷ out) (ground arith, h) in
    elim (Bool-cases (n / 10 == 0)) [
      | inl e ↦ rw (e, print_loop) (ground arith, h)
      | inr e ↦ rw (e, print_loop) more
    ]

-- A printed number consists of digits.
pub decimal-digits : (n : ℕ) → All (λ c. is_digit c ≡ true) (decimal n)
unfolding decimal
decimal-digits n = print_loop-digits (suc n) n [] tt

length-print_loop :
    (k fuel n : ℕ) (out : Text)
    → n < 10 ^ suc k
    → length (print_loop fuel n out) ≤ suc k + length out
unfolding print_loop
length-print_loop k zero n out h = omega arith
length-print_loop zero (suc fuel) n out h = ground arith
length-print_loop (suc k) (suc fuel) n out h =
    let more =
      length-print_loop k fuel (n / 10) ((b'0' + n % 10) ∷ out)
        (omega (arith, pow-suc 10 (suc k), h)) in
    elim (Bool-cases (n / 10 == 0)) [
      | inl e ↦ rw (e, print_loop) (omega arith)
      | inr e ↦ rw (e, print_loop) (omega (arith, more))
    ]

pub length-decimal : (n : ℕ) → n < 100000 → length (decimal n) ≤ 5
unfolding decimal
length-decimal n h = length-print_loop 4 (suc n) n [] h
