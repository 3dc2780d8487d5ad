-- ===== src/Prelude/Inet/RoundTrip.antt =====
-- About `inet_pton` and `inet_ntop`.
use Prim.Native.Nat.{ℕ, zero, suc, ◌≤◌, ◌<◌}
use mathlib.Core.Path.{◌≡◌, refl, ◌∙◌}
use mathlib.Core.Logic.{inl, inr}
use mathlib.Core.Bool.{Bool, true, false, ◌&&◌}
use mathlib.Core.List.{List, [], ◌∷◌, ◌++◌, append-nil}
use mathlib.Core.Option.{Option, none, some}
use native.Mathlib.Omega.{arith}
use susanin.Prelude.Tests.{◌==◌, ◌>>=◌, Bool-cases, Option-cases}
use susanin.Prelude.Lists.{All, All-append}
use susanin.Prelude.Text.{Text}
use susanin.Prelude.Decimal.{is_digit, decimal, print_loop}
use susanin.Prelude.Inet.{InAddr, octet_digit, four_octets, pton_loop, inet_pton, inet_ntop}

-- The value that digits leave behind `cur`.
octet : ℕ → Bool → Text → Option (ℕ × Bool)
octet cur saw [] = some (cur, saw)
octet cur saw (c ∷ cs) = elim (is_digit c) [
  | true ↦ octet_digit cur saw c >>= (λ p. octet p.0 p.1 cs)
  | false ↦ none
]

pton_loop-octet :
    (octets : List ℕ) (ds rest : Text) (cur : ℕ) (saw : Bool) (v : ℕ) (seen : Bool)
    → octet cur saw ds ≡ some (v, seen)
    → pton_loop octets cur saw (ds ++ rest) ≡ pton_loop octets v seen rest
unfolding octet pton_loop
pton_loop-octet octets [] rest cur saw v seen h = ground arith
pton_loop-octet octets (c ∷ ds) rest cur saw v seen h = elim (Bool-cases (is_digit c)) [
  | inl d ↦ elim (Option-cases (octet_digit cur saw c)) [
    | inl e ↦ cc (rw (e, octet) at (rw (d, octet) at h))
    | inr (p, e) ↦
        rw (d, pton_loop)
          (rw e
            (pton_loop-octet octets ds rest p.0 p.1 v seen (rw (e, octet) at (rw (d, octet) at h))))
  ]
  | inr d ↦ cc (rw (d, octet) at h)
]

is_octet : Option (ℕ × Bool) → ℕ → Bool
is_octet none n = false
is_octet (some (v, saw)) n = v == n && saw

octets_below : ℕ → Bool
octets_below zero = true
octets_below (suc n) = is_octet (octet 0 false (decimal n)) n && octets_below n

all_octets : octets_below 256 ≡ true
unfolding octets_below is_octet octet octet_digit decimal print_loop
all_octets = refl

is_octet_lem : (o : Option (ℕ × Bool)) (n : ℕ) → is_octet o n ≡ true → o ≡ some (n, true)
unfolding is_octet
is_octet_lem none n h = cc
is_octet_lem (some (v, saw)) n h = ground arith

octet-below : (k n : ℕ) → n < k → octets_below k ≡ true → octet 0 false (decimal n) ≡ some (n, true)
unfolding octets_below
octet-below zero n h e = elim h [ ]
octet-below (suc k) n h e = elim (Bool-cases (n == k)) [
  | inl same ↦
      let eq : n ≡ k = ground arith in
      rw eq (is_octet_lem (octet 0 false (decimal k)) k (ground arith))
  | inr other ↦ octet-below k n (ground arith) (ground arith)
]

pton_loop-decimal :
    (octets : List ℕ) (n : ℕ) (rest : Text)
    → n ≤ 255
    → pton_loop octets 0 false (decimal n ++ rest) ≡ pton_loop octets n true rest
pton_loop-decimal octets n rest h =
    pton_loop-octet octets (decimal n) rest 0 false n true
      (octet-below 256 n (omega arith) all_octets)

-- Every byte of an address is one.
pub record IsAddr (i : InAddr) : Type 0 where
  pub a_byte : i.a ≤ 255
  pub b_byte : i.b ≤ 255
  pub c_byte : i.c ≤ 255
  pub d_byte : i.d ≤ 255

pub inet_pton-inet_ntop : (i : InAddr) → IsAddr i → inet_pton (inet_ntop i) ≡ some i
unfolding inet_pton inet_ntop
inet_pton-inet_ntop i v =
    pton_loop-decimal [] i.a _ v.a_byte
    ∙ pton_loop-decimal (i.a ∷ []) i.b _ v.b_byte
    ∙ pton_loop-decimal (i.a ∷ i.b ∷ []) i.c _ v.c_byte
    ∙ ap_end
  where
    ap_end : pton_loop (i.a ∷ i.b ∷ i.c ∷ []) 0 false (decimal i.d) ≡ some i
    ap_end = rw append-nil at (pton_loop-decimal (i.a ∷ i.b ∷ i.c ∷ []) i.d [] v.d_byte)

octet_digit-le :
    (cur : ℕ) (saw : Bool) (c : ℕ) (p : ℕ × Bool) → octet_digit cur saw c ≡ some p → p.0 ≤ 255
unfolding octet_digit
octet_digit-le cur saw c p h = ground arith

four_octets-IsAddr :
    (octets : List ℕ) (cur : ℕ) (saw : Bool) (i : InAddr)
    → All (λ o. o ≤ 255) octets
    → cur ≤ 255
    → four_octets octets cur saw ≡ some i
    → IsAddr i
unfolding four_octets
four_octets-IsAddr (a ∷ b ∷ c ∷ []) cur true i h k e = ground arith
four_octets-IsAddr _ cur saw i h k e = cc

pton_loop-IsAddr :
    (octets : List ℕ) (cur : ℕ) (saw : Bool) (s : Text) (i : InAddr)
    → All (λ o. o ≤ 255) octets
    → cur ≤ 255
    → pton_loop octets cur saw s ≡ some i
    → IsAddr i
unfolding pton_loop
pton_loop-IsAddr octets cur saw [] i h k e = four_octets-IsAddr octets cur saw i h k e
pton_loop-IsAddr octets cur saw (c ∷ s) i h k e = elim (Bool-cases (is_digit c)) [
  | inl d ↦ elim (Option-cases (octet_digit cur saw c)) [
    | inl o ↦ cc (rw o at (rw (d, pton_loop) at e))
    | inr (p, o) ↦
        pton_loop-IsAddr octets p.0 p.1 s i h (octet_digit-le cur saw c p o)
          (rw o at (rw (d, pton_loop) at e))
  ]
  | inr d ↦ elim (Bool-cases (c == b'.' && saw)) [
    | inl o ↦
        pton_loop-IsAddr (octets ++ (cur ∷ [])) 0 false s i
          (All-append (λ o. o ≤ 255) octets (cur ∷ []) h (k, tt)) (omega arith)
          (rw o at (rw (d, pton_loop) at e))
    | inr o ↦ cc (rw o at (rw (d, pton_loop) at e))
  ]
]

pub inet_pton-IsAddr : (s : Text) (i : InAddr) → inet_pton s ≡ some i → IsAddr i
unfolding inet_pton
inet_pton-IsAddr s i e = pton_loop-IsAddr [] 0 false s i tt (omega arith) e
