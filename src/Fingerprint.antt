-- ===== src/Fingerprint.antt =====
-- src/fingerprint.c: the FNV-1a fingerprint of a script source and its 16 hexadecimal digits.
use susanin.Prelude.{
  ℕ, zero, suc, ◌+◌, ◌-◌, ◌*◌, ◌/◌, ◌%◌, ◌^◌, [], ◌∷◌, bit_xor, ltb, if◌then◌else◌,
}
use susanin.Prelude.Text.{Text}

abbrev pub offset_basis : ℕ
offset_basis = 14695981039346656037

abbrev pub fnv_prime : ℕ
fnv_prime = 1099511628211

-- `h ^= p[i]; h *= prime`, on 64 bits.
unfoldable pub fnv_step : ℕ → ℕ → ℕ
fnv_step h byte = bit_xor h byte * fnv_prime % 2 ^ 64

unfoldable pub fnv_from : ℕ → Text → ℕ
fnv_from h [] = h
fnv_from h (c ∷ cs) = fnv_from (fnv_step h c) cs

unfoldable pub fnv1a64 : Text → ℕ
fnv1a64 text = fnv_from offset_basis text

abbrev pub hex_digit : ℕ → ℕ
hex_digit d = if ltb d 10 then b'0' + d else b'a' + (d - 10)

-- `%0<n>llx` of a number below 16 ^ n: the digits in front of `out`.
unfoldable pub hex_loop : ℕ → ℕ → Text → Text
hex_loop zero h out = out
hex_loop (suc n) h out = hex_loop n (h / 16) (hex_digit (h % 16) ∷ out)

unfoldable pub fingerprint_hex : Text → Text
fingerprint_hex text = hex_loop 16 (fnv1a64 text) []
