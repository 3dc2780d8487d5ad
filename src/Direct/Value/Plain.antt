-- ===== src/Direct/Value/Plain.antt =====
-- About the bytes of a value that src/direct.c stores.
use susanin.Prelude.{
  ℕ, ◌≡◌, ◌<◌, ◌≢◌, Bool, true, [], ◌∷◌, ◌++◌, some, arith, all, All, Bool-cases, inl, inr,
}
use susanin.Prelude.Text.{Text}
use susanin.Direct.Value.{split_at}

-- Neither a blank nor a control character.
abbrev pub IsPlain : ℕ → Type 0
IsPlain c = 32 < c

pub All-of_all : (p : ℕ → Bool) (s : Text) → all p s ≡ true → All (λ c. p c ≡ true) s
All-of_all p [] h = tt
All-of_all p (c ∷ s) h = elim (Bool-cases (p c)) [
  | inl e ↦ (e, All-of_all p s (ground (arith, e)))
  | inr e ↦ ground arith
]

pub All-front : (P : ℕ → Type 0) (xs ys : Text) → All P (xs ++ ys) → All P xs
All-front P [] ys h = tt
All-front P (x ∷ xs) ys (p, h) = (p, All-front P xs ys h)

pub split_at-append :
    (mark : ℕ) (s rest : Text)
    → All (λ c. c ≢ mark) s
    → split_at mark (s ++ (mark ∷ rest)) ≡ some (s, rest)
unfolding split_at
split_at-append mark [] rest h = ground arith
split_at-append mark (c ∷ s) rest (n, h) = rw (split_at-append mark s rest h) (ground arith)
