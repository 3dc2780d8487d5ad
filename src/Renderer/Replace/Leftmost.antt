-- ===== src/Renderer/Replace/Leftmost.antt =====
-- About what `replace_all` of src/renderer.c replaces.
use susanin.Prelude.{
  ℕ, zero, suc, ◌-◌, ◌≤◌, ◌≡◌, refl, ap, [], ◌∷◌, ◌++◌, none, some, length, length-append, arith,
  Option-cases, inl, inr,
}
use susanin.Prelude.Text.{Text, after_prefix, after_prefix_iff}
use susanin.Renderer.Replace.{replace_loop, replace_all}

-- `out` is a text with each needle replaced, from left to right, none of them overlapping another.
pub data Replaced (needle value : Text) : Text → Text → Type 0 where
  rests : Replaced needle value [] []
  keeps :
      {c : ℕ} {cs out : Text}
      → after_prefix needle (c ∷ cs) ≡ none
      → Replaced needle value cs out
      → Replaced needle value (c ∷ cs) (c ∷ out)
  replaces :
      {src rest out result : Text}
      → src ≡ needle ++ rest
      → result ≡ value ++ out
      → Replaced needle value rest out
      → Replaced needle value src result

-- Behind a needle the loop passes over the rest of it.
pub replace_loop_skip :
    (needle value skipped rest : Text) (left : ℕ)
    → length skipped ≡ left
    → replace_loop needle value left (skipped ++ rest) ≡ replace_loop needle value 0 rest
unfolding replace_loop
replace_loop_skip needle value [] rest zero h = refl
replace_loop_skip needle value [] rest (suc left) h = absurd (omega (arith, h))
replace_loop_skip needle value (c ∷ skipped) rest zero h = absurd (omega (arith, h))
replace_loop_skip needle value (c ∷ skipped) rest (suc left) h =
    replace_loop_skip needle value skipped rest left (omega (arith, h))

-- What stands behind the first byte of a needle that was found.
pub behind_needle :
    (d : ℕ) (ds : Text) (c : ℕ) (cs rest : Text)
    → after_prefix (d ∷ ds) (c ∷ cs) ≡ some rest
    → (cs ≡ ds ++ rest) × (c ≡ d)
unfolding after_prefix
behind_needle d ds c cs rest h = ground (arith, after_prefix_iff ds cs rest)

module _ (d : ℕ) (ds value : Text) where
  -- A needle that was found is replaced as a whole.
  pub replace_loop_found :
      (c : ℕ) (cs rest : Text)
      → after_prefix (d ∷ ds) (c ∷ cs) ≡ some rest
      → replace_loop (d ∷ ds) value 0 (c ∷ cs) ≡ value ++ replace_loop (d ∷ ds) value 0 rest
  unfolding replace_loop
  replace_loop_found c cs rest h =
      rw (h, replace_loop)
        (rw ((behind_needle d ds c cs rest h).0) (
          ap (λ t. value ++ t)
            (replace_loop_skip (d ∷ ds) value ds rest (length (d ∷ ds) - 1) (omega arith))))

  pub replace_loop_other :
      (c : ℕ) (cs : Text)
      → after_prefix (d ∷ ds) (c ∷ cs) ≡ none
      → replace_loop (d ∷ ds) value 0 (c ∷ cs) ≡ c ∷ replace_loop (d ∷ ds) value 0 cs
  unfolding replace_loop
  replace_loop_other c cs h = rw (h, replace_loop) refl

  replace_loop-Replaced :
      (n : ℕ) (src : Text)
      → length src ≤ n
      → Replaced (d ∷ ds) value src (replace_loop (d ∷ ds) value 0 src)
  replace_loop-Replaced n [] h = unfold replace_loop in rests
  replace_loop-Replaced zero (c ∷ cs) h = absurd (omega (arith, h))
  replace_loop-Replaced (suc n) (c ∷ cs) h = elim (Option-cases (after_prefix (d ∷ ds) (c ∷ cs))) [
    | inl e ↦
        rw (replace_loop_other c cs e) (keeps e (replace_loop-Replaced n cs (omega (arith, h))))
    | inr (rest, e) ↦
        let (tail, head) = behind_needle d ds c cs rest e in
        let shorter : length rest ≤ n = omega (arith, h, ap length tail, length-append ds rest) in
        replaces ((after_prefix_iff (d ∷ ds) (c ∷ cs) rest).0 e) (replace_loop_found c cs rest e)
          (replace_loop-Replaced n rest shorter)
  ]

-- What `replace_all` returns is the text with each needle replaced, from left to right.
pub replace_all-Replaced :
    (src needle value out : Text)
    → replace_all src needle value ≡ some out
    → Replaced needle value src out
unfolding replace_all
replace_all-Replaced src [] value out h = cc
replace_all-Replaced src (d ∷ ds) value out h =
    let same : replace_loop (d ∷ ds) value 0 src ≡ out = ground (arith, h) in
    rw (← same) (replace_loop-Replaced d ds value (length src) src (omega arith))
