-- ===== src/Prelude/Text.antt =====
-- C strings: lists of bytes, with no terminator. A literal is `codes "..."`.
use Prim.Native.Char.{code}
use Prim.Native.String.{String}
use Prim.Native.Nat.{ℕ, ◌-◌}
use mathlib.Core.Path.{◌≡◌, refl}
use mathlib.Core.Logic.{◌↔◌, ◌≢◌}
use mathlib.Core.Bool.{Bool, true, false, ◌&&◌}
use mathlib.Core.Option.{Option, none, some}
use mathlib.Core.List.{List, [], ◌∷◌, ◌++◌}
use native.Mathlib.Omega.{arith}
use susanin.Prelude.Tests.{◌==◌, if◌then◌else◌}
use susanin.Prelude.Lists.{take, All}

abbrev pub Text : Type 0
Text = List ℕ

-- The code points of a literal: its bytes, since every literal of the program is ASCII.
unfoldable pub codes : String → Text
codes String.[] = []
codes (String.◌∷◌ c s) = code c ∷ codes s

-- `strcmp(a, b) == 0`
unfoldable pub str_eq : Text → Text → Bool
str_eq [] [] = true
str_eq [] (y ∷ ys) = false
str_eq (x ∷ xs) [] = false
str_eq (x ∷ xs) (y ∷ ys) = x == y && str_eq xs ys

pub str_eq_iff : (a b : Text) → (str_eq a b ≡ true) ↔ (a ≡ b)
unfolding str_eq
str_eq_iff [] [] = ground arith
str_eq_iff [] (y ∷ b) = ground arith
str_eq_iff (x ∷ a) [] = ground arith
str_eq_iff (x ∷ a) (y ∷ b) = ground (arith, str_eq_iff a b)

pub str_eq_refl : (a : Text) → str_eq a a ≡ true
str_eq_refl a = (str_eq_iff a a).1 refl

-- What follows `prefix` in `s`, when `strncmp(s, prefix, strlen(prefix)) == 0`.
unfoldable pub after_prefix : Text → Text → Option Text
after_prefix [] s = some s
after_prefix (p ∷ ps) [] = none
after_prefix (p ∷ ps) (c ∷ cs) = if p == c then after_prefix ps cs else none

unfoldable pub starts_with : Text → Text → Bool
starts_with prefix s = elim (after_prefix prefix s) [ none ↦ false | some _ ↦ true ]

pub after_prefix_iff : (p s rest : Text) → (after_prefix p s ≡ some rest) ↔ (s ≡ p ++ rest)
unfolding after_prefix
after_prefix_iff [] s rest = ground arith
after_prefix_iff (x ∷ p) [] rest = ground arith
after_prefix_iff (x ∷ p) (c ∷ s) rest = ground (arith, after_prefix_iff p s rest)

pub after_prefix-append : (p rest : Text) → after_prefix p (p ++ rest) ≡ some rest
after_prefix-append p rest = (after_prefix_iff p (p ++ rest) rest).1 refl

-- The bytes up to the first NUL: what `strcmp`, `strlen` and `%s` see of a buffer.
unfoldable pub c_string : Text → Text
c_string [] = []
c_string (c ∷ cs) = if c == 0 then [] else c ∷ c_string cs

pub c_string-All : (s : Text) → All (λ c. c ≢ 0) s → c_string s ≡ s
unfolding c_string
c_string-All [] h = refl
c_string-All (c ∷ cs) h = ground (arith, c_string-All cs h.1)

-- `snprintf(buf, size, "%s", s)` into `char buf[size]`, 0 < size.
abbrev pub copy_to : ℕ → Text → Text
copy_to size s = take (size - 1) s
