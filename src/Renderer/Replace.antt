-- ===== src/Renderer/Replace.antt =====
-- `replace_all` of src/renderer.c. `malloc` is taken to succeed.
pub mod Leftmost
pub mod Length
use susanin.Prelude.{
  ℕ, zero, suc, ◌+◌, ◌-◌, ◌*◌, ◌%◌, ◌^◌, [], ◌∷◌, ◌++◌, Option, none, some, length, if◌then◌else◌,
}
use susanin.Prelude.Text.{Text, after_prefix}
use susanin.Prelude.Decimal.{is_empty}

-- The loop that copies: `strstr` looks for the needle at each byte in turn. `left` bytes of a needle that
-- was found are still to be passed over.
unfoldable pub replace_loop : Text → Text → ℕ → Text → Text
unfolding after_prefix
replace_loop needle value left [] = []
replace_loop needle value (suc left) (c ∷ cs) = replace_loop needle value left cs
replace_loop needle value zero (c ∷ cs) = elim (after_prefix needle (c ∷ cs)) [
  | none ↦ c ∷ replace_loop needle value 0 cs
  | some _ ↦ value ++ replace_loop needle value (length needle - 1) cs
]

-- The loop that counts the needles.
unfoldable pub count_loop : Text → ℕ → Text → ℕ
unfolding after_prefix
count_loop needle left [] = 0
count_loop needle (suc left) (c ∷ cs) = count_loop needle left cs
count_loop needle zero (c ∷ cs) = elim (after_prefix needle (c ∷ cs)) [
  | none ↦ count_loop needle 0 cs
  | some _ ↦ suc (count_loop needle (length needle - 1) cs)
]

-- `strlen(src) + count * (vl - nl)`, in `size_t`.
unfoldable pub out_length : Text → Text → Text → ℕ
unfolding count_loop
out_length src needle value =
    (length src + count_loop needle 0 src * ((length value + 2 ^ 64 - length needle) % 2 ^ 64))
    % 2 ^ 64

unfoldable pub replace_all : Text → Text → Text → Option Text
unfolding replace_loop
replace_all src needle value =
    if is_empty needle then none else some (replace_loop needle value 0 src)
