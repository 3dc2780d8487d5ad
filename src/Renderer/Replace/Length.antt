-- ===== src/Renderer/Replace/Length.antt =====
-- About the buffer of `replace_all` of src/renderer.c.
use susanin.Prelude.{
  ℕ, zero, suc, ◌+◌, ◌-◌, ◌*◌, ◌%◌, ◌^◌, ◌≤◌, ◌<◌, ◌≡◌, refl, ap, ◌∙◌, [], ◌∷◌, ◌++◌, none, some,
  length, length-append, arith, Option-cases, Bool-cases, leb, sym, inl, inr,
}
use susanin.Prelude.Text.{Text, after_prefix}
use susanin.Renderer.Replace.{replace_loop, count_loop, out_length, replace_all}
use susanin.Renderer.Replace.Leftmost.{behind_needle, replace_loop_found, replace_loop_other}

count_loop_skip :
    (needle skipped rest : Text) (left : ℕ)
    → length skipped ≡ left
    → count_loop needle left (skipped ++ rest) ≡ count_loop needle 0 rest
unfolding count_loop
count_loop_skip needle [] rest zero h = refl
count_loop_skip needle [] rest (suc left) h = absurd (omega (arith, h))
count_loop_skip needle (c ∷ skipped) rest zero h = absurd (omega (arith, h))
count_loop_skip needle (c ∷ skipped) rest (suc left) h =
    count_loop_skip needle skipped rest left (omega (arith, h))

one_more :
    (out count needle value rest : ℕ)
    → out + count * needle ≡ rest + count * value
    → value + out + suc count * needle ≡ needle + rest + suc count * value
one_more out count needle value rest h = grind arith

module _ (d : ℕ) (ds value : Text) where
  count_loop_found :
      (c : ℕ) (cs rest : Text)
      → after_prefix (d ∷ ds) (c ∷ cs) ≡ some rest
      → count_loop (d ∷ ds) 0 (c ∷ cs) ≡ suc (count_loop (d ∷ ds) 0 rest)
  unfolding count_loop
  count_loop_found c cs rest h =
      rw (h, count_loop)
        (rw ((behind_needle d ds c cs rest h).0)
          (ap (λ n. suc n) (count_loop_skip (d ∷ ds) ds rest (length (d ∷ ds) - 1) (omega arith))))

  -- Each needle that is counted makes room for its value.
  length-replace_loop :
      (n : ℕ) (src : Text)
      → length src ≤ n
      → length (replace_loop (d ∷ ds) value 0 src) + count_loop (d ∷ ds) 0 src * length (d ∷ ds)
        ≡ length src + count_loop (d ∷ ds) 0 src * length value
  length-replace_loop n [] h = unfold replace_loop count_loop in (omega arith)
  length-replace_loop zero (c ∷ cs) h = absurd (omega (arith, h))
  length-replace_loop (suc n) (c ∷ cs) h = elim (Option-cases (after_prefix (d ∷ ds) (c ∷ cs))) [
    | inl e ↦
        rw (replace_loop_other d ds value c cs e)
          (rw (count_other c cs e) (omega (arith, length-replace_loop n cs (omega (arith, h)))))
    | inr (rest, e) ↦
        let tail = (behind_needle d ds c cs rest e).0 in
        let sizes : length (c ∷ cs) ≡ length (d ∷ ds) + length rest =
          omega (arith, ap length tail, length-append ds rest) in
        let shorter : length rest ≤ n = omega (arith, h, ap length tail, length-append ds rest) in
        rw (replace_loop_found d ds value c cs rest e) (
          rw (count_loop_found c cs rest e) (
            rw length-append (
              rw sizes (
                one_more (length (replace_loop (d ∷ ds) value 0 rest)) (count_loop (d ∷ ds) 0 rest)
                  (length (d ∷ ds)) (length value) (length rest)
                  (length-replace_loop n rest shorter)))))
  ]
    where
      count_other :
          (c : ℕ) (cs : Text)
          → after_prefix (d ∷ ds) (c ∷ cs) ≡ none
          → count_loop (d ∷ ds) 0 (c ∷ cs) ≡ count_loop (d ∷ ds) 0 cs
      count_other c cs e = unfold count_loop in rw (e, count_loop) refl

shrinks :
    (out count x value src : ℕ)
    → out + count * value ≡ src + count * (value + x)
    → src + count * x ≡ out
shrinks out count x value src h = grind arith

grows :
    (out count x y value src : ℕ)
    → out + count * (value + x) ≡ src + count * value
    → src + count * y ≡ out + count * (x + y)
grows out count x y value src h = grind arith

-- The unsigned arithmetic of the buffer's size, whether the values are longer or shorter.
sizes_agree :
    (out count needle value src : ℕ)
    → out < 2 ^ 64
    → needle < 2 ^ 64
    → value < 2 ^ 64
    → out + count * needle ≡ src + count * value
    → (src + count * ((value + 2 ^ 64 - needle) % 2 ^ 64)) % 2 ^ 64 ≡ out
sizes_agree out count needle value src o n v h = elim (Bool-cases (leb needle value)) [
  | inl e ↦
      let fits : needle ≤ value = ground (arith, e) in
      let x = value - needle in
      let longer : value ≡ needle + x = omega (arith, fits) in
      let step : (value + 2 ^ 64 - needle) % 2 ^ 64 ≡ x = omega (arith, fits, v) in
      let sum : src + count * x ≡ out =
        shrinks out count x needle src (h ∙ ap (λ t. src + count * t) longer) in
      rw step (rw sum (omega (arith, o)))
  | inr e ↦
      let short : value < needle = ground (arith, e) in
      let x = needle - value in
      let y = value + 2 ^ 64 - needle in
      let shorter : needle ≡ value + x = omega (arith, short) in
      let step : (value + 2 ^ 64 - needle) % 2 ^ 64 ≡ y = omega (arith, short, n) in
      let whole : x + y ≡ 2 ^ 64 = omega (arith, short, n) in
      let sum : src + count * y ≡ out + count * 2 ^ 64 =
        grows out count x y value src (ap (λ t. out + count * t) (sym shorter) ∙ h)
        ∙ ap (λ t. out + count * t) whole in
      rw step (rw sum (omega (arith, o)))
]

-- The size that `replace_all` computes for its buffer is that of the text which it writes there, also
-- where the value is shorter than the needle and the difference wraps around.
pub out_length-replace_all :
    (src needle value out : Text)
    → replace_all src needle value ≡ some out
    → length out < 2 ^ 64
    → length needle < 2 ^ 64
    → length value < 2 ^ 64
    → out_length src needle value ≡ length out
unfolding replace_all out_length
out_length-replace_all src [] value out h o n v = cc
out_length-replace_all src (d ∷ ds) value out h o n v =
    let same : replace_loop (d ∷ ds) value 0 src ≡ out = ground (arith, h) in
    sizes_agree (length out) (count_loop (d ∷ ds) 0 src) (length (d ∷ ds)) (length value)
      (length src) o n v
      (rw same at (length-replace_loop d ds value (length src) src (omega arith)))
