-- ===== src/Config/Write/Values.antt =====
-- About the values that `write_nonsecret_config` of src/config.c writes.
use susanin.Prelude.{ℕ, ◌^◌, ◌≤◌, ◌<◌, ◌≡◌, refl, Bool, true, false, [], ◌∷◌, some, leb, all}
use susanin.Prelude.{length, All, All-map, arith, Bool-cases, inl, inr}
use susanin.Prelude.Text.{Text, codes, str_eq, str_eq_iff}
use susanin.Prelude.Decimal.{decimal, skip_space, is_digit, is_empty}
use susanin.Prelude.Decimal.RoundTrip.{
  strtoul-decimal, decimal-digits, decimal-ne-empty, length-decimal,
}
use susanin.Config.Options.{
  TargetMode, interface, routing_table, Profile, fast, middle, slow, target_mode_name,
  accuracy_profile_name, valid_log_level, log_levels, parse_unsigned_range,
}
use susanin.Config.Load.{trim_front, trim_back, parse_router_port, is_negative}
use susanin.Config.Write.{switch_name}
use susanin.Config.Write.Lines.{IsValue, IsByte, is_key_byte, key_bytes}
use mathlib.Core.List.{append-nil}
use mathlib.Core.Path.{subst, sym}

digits_front : (v : Text) → All (λ c. is_digit c ≡ true) v → trim_front v ≡ v
unfolding trim_front
digits_front [] d = refl
digits_front (c ∷ v) (h, d) = ground arith

digits_back : (v : Text) → All (λ c. is_digit c ≡ true) v → trim_back v ≡ v
unfolding trim_back
digits_back [] d = refl
digits_back (c ∷ v) (h, d) = rw (digits_back v d) (ground arith)

digits_positive : (v : Text) → All (λ c. is_digit c ≡ true) v → is_negative (skip_space v) ≡ false
unfolding is_negative skip_space
digits_positive [] d = refl
digits_positive (c ∷ v) (h, d) = ground arith

-- A text of digits.
IsValue-digits :
    (v : Text)
    → is_empty v ≡ false
    → All (λ c. is_digit c ≡ true) v
    → length v ≤ 127
    → IsValue 127 v
IsValue-digits v g d l = record {
  given = g;
  bytes = All-map _ IsByte (λ c h. ground arith) v d;
  front = digits_front v d;
  back = digits_back v d;
  fits = l;
}

pub IsValue-decimal : (n : ℕ) → n < 100000 → IsValue 127 (decimal n)
IsValue-decimal n h =
    IsValue-digits (decimal n) (decimal-ne-empty n) (decimal-digits n)
      (omega (arith, length-decimal n h))

pub parse_router_port-decimal : (p : ℕ) → 1 ≤ p → p ≤ 65535 → parse_router_port (decimal p) ≡ some p
unfolding parse_router_port
parse_router_port-decimal p low high = ground (
  arith,
  append-nil (decimal p),
  strtoul-decimal p [] (omega (arith, high)) tt,
  digits_positive (decimal p) (decimal-digits p),
)

pub parse_unsigned_range-decimal :
    (n min max : ℕ)
    → min ≤ n
    → n ≤ max
    → max < 2 ^ 64
    → parse_unsigned_range (decimal n) min max ≡ some n
unfolding parse_unsigned_range
parse_unsigned_range-decimal n min max low high small = ground (
  arith,
  append-nil (decimal n),
  decimal-ne-empty n,
  strtoul-decimal n [] (omega (arith, high, small)) tt,
)

-- A fixed name of lower-case letters.
pub fixed-IsValue :
    (v : Text)
    → is_empty v ≡ false
    → all is_key_byte v ≡ true
    → trim_front v ≡ v
    → trim_back v ≡ v
    → leb (length v) 15 ≡ true
    → IsValue 127 v
fixed-IsValue v g b f k l = record {
  given = g;
  bytes = All-map _ IsByte (λ c h. h.0) v (key_bytes v b);
  front = f;
  back = k;
  fits = ground arith;
}

pub IsValue-mode : (m : TargetMode) → IsValue 127 (target_mode_name m)
unfolding target_mode_name codes trim_front trim_back
IsValue-mode interface = fixed-IsValue (target_mode_name interface) refl refl refl refl refl
IsValue-mode routing_table = fixed-IsValue (target_mode_name routing_table) refl refl refl refl refl

pub IsValue-profile : (p : Profile) → IsValue 127 (accuracy_profile_name p)
unfolding accuracy_profile_name codes trim_front trim_back
IsValue-profile fast = fixed-IsValue (accuracy_profile_name fast) refl refl refl refl refl
IsValue-profile middle = fixed-IsValue (accuracy_profile_name middle) refl refl refl refl refl
IsValue-profile slow = fixed-IsValue (accuracy_profile_name slow) refl refl refl refl refl

pub IsValue-switch : (b : Bool) → IsValue 127 (switch_name b)
unfolding switch_name codes trim_front trim_back
IsValue-switch true = fixed-IsValue (switch_name true) refl refl refl refl refl
IsValue-switch false = fixed-IsValue (switch_name false) refl refl refl refl refl

named-IsValue : (v name : Text) → str_eq v name ≡ true → IsValue 127 name → IsValue 127 v
named-IsValue v name e i = subst (IsValue 127) (sym ((str_eq_iff v name).0 e)) i

quiet-IsValue : IsValue 127 (codes "quiet")
unfolding codes trim_front trim_back
quiet-IsValue = fixed-IsValue (codes "quiet") refl refl refl refl refl

error-IsValue : IsValue 127 (codes "error")
unfolding codes trim_front trim_back
error-IsValue = fixed-IsValue (codes "error") refl refl refl refl refl

info-IsValue : IsValue 127 (codes "info")
unfolding codes trim_front trim_back
info-IsValue = fixed-IsValue (codes "info") refl refl refl refl refl

debug-IsValue : IsValue 127 (codes "debug")
unfolding codes trim_front trim_back
debug-IsValue = fixed-IsValue (codes "debug") refl refl refl refl refl

trace-IsValue : IsValue 127 (codes "trace")
unfolding codes trim_front trim_back
trace-IsValue = fixed-IsValue (codes "trace") refl refl refl refl refl

pub IsValue-level : (v : Text) → valid_log_level v ≡ true → IsValue 127 v
unfolding valid_log_level log_levels
IsValue-level v h = elim (Bool-cases (str_eq v (codes "quiet"))) [
  | inl e ↦ named-IsValue v (codes "quiet") e quiet-IsValue
  | inr e1 ↦ elim (Bool-cases (str_eq v (codes "error"))) [
    | inl e ↦ named-IsValue v (codes "error") e error-IsValue
    | inr e2 ↦ elim (Bool-cases (str_eq v (codes "info"))) [
      | inl e ↦ named-IsValue v (codes "info") e info-IsValue
      | inr e3 ↦ elim (Bool-cases (str_eq v (codes "debug"))) [
        | inl e ↦ named-IsValue v (codes "debug") e debug-IsValue
        | inr e4 ↦ named-IsValue v (codes "trace") (ground arith) trace-IsValue
      ]
    ]
  ]
]
