-- ===== src/Ros/Socket/Delivers.antt =====
-- About `read_all` of src/routeros_api.c.
use susanin.Prelude.{ℕ, zero, suc, ◌+◌, ◌-◌, ◌≤◌, List, [], ◌∷◌, ◌++◌, some, arith}
use susanin.Prelude.{
  ◌≡◌, refl, sym, ap, ◌∙◌, leb, length, length-append, take, drop, Bool-cases, inl, inr,
}
use susanin.Ros.Socket.{segment, interrupted, failed, Stream, push_back, read_loop, read_all}
use mathlib.Core.List.{append_assoc}

-- The bytes that the stream hands out before anything fails.
abbrev pub available : Stream → List ℕ
available [] = []
available (interrupted ∷ s) = available s
available (failed ∷ s) = []
available (segment [] ∷ s) = []
available (segment (b ∷ bs) ∷ s) = b ∷ (bs ++ available s)

available-push_back : (bs : List ℕ) (s : Stream) → available (push_back bs s) ≡ bs ++ available s
unfolding push_back
available-push_back [] s = refl
available-push_back (b ∷ bs) s = refl

take-append-drop {ℓ} :
    {A : Type ℓ} (n : ℕ) (xs ys : List A) → take n xs ++ (drop n xs ++ ys) ≡ xs ++ ys
take-append-drop zero xs ys = refl
take-append-drop (suc n) [] ys = refl
take-append-drop (suc n) (x ∷ xs) ys = ap (◌∷◌ x) (take-append-drop n xs ys)

length-take_le {ℓ} : {A : Type ℓ} (n : ℕ) (xs : List A) → n ≤ length xs → length (take n xs) ≡ n
length-take_le zero xs h = refl
length-take_le (suc n) [] h = absurd (omega arith)
length-take_le (suc n) (x ∷ xs) h = ap suc (length-take_le n xs (omega arith))

-- What is read and what is left make up what was there.
read_loop_sound :
    (n : ℕ) (got : List ℕ) (s : Stream) (out : List ℕ) (s' : Stream)
    → read_loop n got s ≡ some (out, s')
    → (got ++ available s ≡ out ++ available s') × (length out ≡ length got + n)
unfolding read_loop
read_loop_sound zero got s out s' h = ground arith
read_loop_sound (suc n) got [] out s' h = cc
read_loop_sound (suc n) got (interrupted ∷ s) out s' h = read_loop_sound (suc n) got s out s' h
read_loop_sound (suc n) got (failed ∷ s) out s' h = cc
read_loop_sound (suc n) got (segment [] ∷ s) out s' h = cc
read_loop_sound (suc n) got (segment (b ∷ bs) ∷ s) out s' h = ground (
  arith,
  read_loop_sound (n - length bs) (got ++ (b ∷ bs)) s out s',
  append_assoc got (b ∷ bs) (available s),
  append_assoc got (b ∷ take n bs) (available s'),
  length-append got (b ∷ bs),
  length-append got (b ∷ take n bs),
  length-take_le n bs,
  available-push_back (drop n bs) s,
  take-append-drop n bs (available s),
)

read_loop_total :
    (n : ℕ) (got : List ℕ) (s : Stream)
    → n ≤ length (available s)
    → (r : List ℕ × Stream) × (read_loop n got s ≡ some r)
unfolding read_loop
read_loop_total zero got s h = ((got, s), refl)
read_loop_total (suc n) got [] h = absurd (omega arith)
read_loop_total (suc n) got (interrupted ∷ s) h = read_loop_total (suc n) got s h
read_loop_total (suc n) got (failed ∷ s) h = absurd (omega arith)
read_loop_total (suc n) got (segment [] ∷ s) h = absurd (omega arith)
read_loop_total (suc n) got (segment (b ∷ bs) ∷ s) h = elim (Bool-cases (leb (length bs) n)) [
  | inl all ↦ rw all (
      read_loop_total (n - length bs) (got ++ (b ∷ bs)) s
        (ground (arith, length-append bs (available s))))
  | inr fits ↦ rw fits ((got ++ (b ∷ take n bs), push_back (drop n bs) s), refl)
]

append_cancel {ℓ} :
    {A : Type ℓ} (xs ys us vs : List A)
    → length xs ≡ length us
    → xs ++ ys ≡ us ++ vs
    → (xs ≡ us) × (ys ≡ vs)
append_cancel [] ys [] vs h e = (refl, e)
append_cancel [] ys (u ∷ us) vs h e = absurd (omega arith)
append_cancel (x ∷ xs) ys [] vs h e = absurd (omega arith)
append_cancel (x ∷ xs) ys (u ∷ us) vs h e = ground (arith, append_cancel xs ys us vs (omega arith))

-- `read_all` returns exactly the next `n` bytes, in order, and leaves the others, whatever the
-- segments are and wherever calls are interrupted.
pub read_all-available :
    (xs rest : List ℕ) (s : Stream)
    → available s ≡ xs ++ rest
    → (s' : Stream) × (read_all (length xs) s ≡ some (xs, s')) × (available s' ≡ rest)
unfolding read_all
read_all-available xs rest s h =
    let ((out, s'), e) =
      read_loop_total (length xs) [] s (rw h (omega (arith, length-append xs rest))) in
    let (same, len) = read_loop_sound (length xs) [] s out s' e in
    let (eo, er) = append_cancel out (available s') xs rest (omega arith) (sym same ∙ h) in
    (s', ground arith, er)

-- A success has taken a prefix of what the stream hands out.
pub read_all_takes :
    (n : ℕ) (s : Stream) (out : List ℕ) (s' : Stream)
    → read_all n s ≡ some (out, s')
    → (available s ≡ out ++ available s') × (length out ≡ n)
unfolding read_all
read_all_takes n s out s' h = ground (arith, read_loop_sound n [] s out s' h)
