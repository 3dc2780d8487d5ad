-- ===== src/Direct/Value/Ip.antt =====
-- About `normalize_ip` of src/direct.c.
use susanin.Prelude.{
  ℕ, ◌≤◌, ◌≡◌, ◌≢◌, refl, true, false, [], ◌∷◌, ◌++◌, some, arith, length, length-append, take-all,
  All, All-append, All-map, Bool-cases, Option-cases, inl, inr,
}
use susanin.Prelude.Text.{Text, copy_to}
use susanin.Prelude.Decimal.{decimal, is_empty, is_digit}
use susanin.Prelude.Decimal.RoundTrip.{
  decimal-digits, decimal-ne-empty, length-decimal, strtoul-decimal,
}
use susanin.Prelude.Inet.{InAddr, inet_pton, inet_ntop}
use susanin.Prelude.Inet.RoundTrip.{IsAddr, inet_pton-inet_ntop, inet_pton-IsAddr}
use susanin.Direct.Value.{split_at, parse_prefix, canonical_ip, normalize_ip}
use susanin.Direct.Value.Plain.{IsPlain, split_at-append}
use mathlib.Core.List.{append-nil}

-- A byte of an address: a digit or a dot.
abbrev IsAddrChar : ℕ → Type 0
IsAddrChar c = IsPlain c × (c ≢ b'/')

decimal-plain : (n : ℕ) → All IsAddrChar (decimal n)
decimal-plain n =
    All-map (λ c. is_digit c ≡ true) IsAddrChar (λ c h. ground arith) (decimal n) (decimal-digits n)

inet_ntop-plain : (i : InAddr) → All IsAddrChar (inet_ntop i)
unfolding inet_ntop
inet_ntop-plain i = dotted i.a _ (dotted i.b _ (dotted i.c _ (decimal-plain i.d)))
  where
    dotted :
        (n : ℕ) (rest : Text) → All IsAddrChar rest → All IsAddrChar (decimal n ++ (b'.' ∷ rest))
    dotted n rest h =
        All-append IsAddrChar (decimal n) (b'.' ∷ rest) (decimal-plain n)
          ((omega arith, omega arith), h)

length-inet_ntop : (i : InAddr) → IsAddr i → length (inet_ntop i) ≤ 23
unfolding inet_ntop
length-inet_ntop i v = omega (
  arith,
  length-append {0},
  length-decimal i.a (omega (arith, v.a_byte)),
  length-decimal i.b (omega (arith, v.b_byte)),
  length-decimal i.c (omega (arith, v.c_byte)),
  length-decimal i.d (omega (arith, v.d_byte)),
)

-- The text of an address with its prefix length.
abbrev pub cidr : InAddr → ℕ → Text
cidr i prefix = inet_ntop i ++ (b'/' ∷ decimal prefix)

length-cidr : (i : InAddr) (prefix : ℕ) → IsAddr i → prefix ≤ 32 → length (cidr i prefix) ≤ 29
length-cidr i prefix v h = omega (
  arith,
  length-append (inet_ntop i) (b'/' ∷ decimal prefix),
  length-inet_ntop i v,
  length-decimal prefix (omega arith),
)

-- What a normalised address is.
pub record IsCidr (value : Text) : Type 0 where
  pub address : InAddr
  pub prefix : ℕ
  pub is_address : IsAddr address
  pub in_range : prefix ≤ 32
  pub spelled : value ≡ cidr address prefix

canonical_ip-IsCidr :
    (s value : Text) (prefix : ℕ) → prefix ≤ 32 → canonical_ip s prefix ≡ some value → IsCidr value
unfolding canonical_ip
canonical_ip-IsCidr s value prefix h e = elim (Option-cases (inet_pton s)) [
  | inl n ↦ cc (rw n at e)
  | inr (a, n) ↦
      let valid = inet_pton-IsAddr s a n in
      let whole = take-all 255 (cidr a prefix) (omega (arith, length-cidr a prefix valid h)) in
      record {
        address = a;
        prefix = prefix;
        is_address = valid;
        in_range = h;
        spelled = cc (whole, rw n at e);
      }
]

parse_prefix-le : (s : Text) (p : ℕ) → parse_prefix s ≡ some p → p ≤ 32
unfolding parse_prefix
parse_prefix-le s p h = ground arith

pub normalize_ip-IsCidr : (s value : Text) → normalize_ip s ≡ some value → IsCidr value
unfolding normalize_ip
normalize_ip-IsCidr s value h = elim (Bool-cases (is_empty s)) [
  | inl e ↦ cc (rw e at h)
  | inr e ↦ elim (Option-cases (split_at b'/' (copy_to 256 s))) [
    | inl n ↦ canonical_ip-IsCidr _ value 32 (omega arith) (rw n at (rw e at h))
    | inr (p, n) ↦ elim (Option-cases (parse_prefix p.1)) [
      | inl q ↦ cc (rw q at (rw n at (rw e at h)))
      | inr (k, q) ↦
          canonical_ip-IsCidr p.0 value k (parse_prefix-le p.1 k q) (rw q at (rw n at (rw e at h)))
    ]
  ]
]

parse_prefix-decimal : (p : ℕ) → p ≤ 32 → parse_prefix (decimal p) ≡ some p
unfolding parse_prefix
parse_prefix-decimal p h =
    let read = rw append-nil at (strtoul-decimal p [] (omega arith) tt) in
    rw (read, decimal-ne-empty p) (ground arith)

cidr-ne-empty : (i : InAddr) (p : ℕ) → is_empty (cidr i p) ≡ false
cidr-ne-empty i p = behind (inet_ntop i) (b'/') (decimal p)
  where
    behind : (u : Text) (c : ℕ) (v : Text) → is_empty (u ++ (c ∷ v)) ≡ false
    behind [] c v = refl
    behind (d ∷ u) c v = refl

-- A normalised address is read as itself.
pub normalize_ip-cidr :
    (i : InAddr) (p : ℕ) → IsAddr i → p ≤ 32 → normalize_ip (cidr i p) ≡ some (cidr i p)
unfolding normalize_ip canonical_ip
normalize_ip-cidr i p v h =
    let whole = take-all 255 (cidr i p) (omega (arith, length-cidr i p v h)) in
    let splits =
      split_at-append b'/' (inet_ntop i) (decimal p)
        (All-map IsAddrChar (λ c. c ≢ b'/') (λ c k. k.1) (inet_ntop i) (inet_ntop-plain i)) in
    rw (cidr-ne-empty i p) (
      rw whole
        (rw splits (rw (parse_prefix-decimal p h) (rw (inet_pton-inet_ntop i v) (rw whole refl)))))

pub normalize_ip_normal : (v : Text) → IsCidr v → normalize_ip v ≡ some v
normalize_ip_normal v c =
    rw c.spelled (normalize_ip-cidr c.address c.prefix c.is_address c.in_range)

pub IsCidr-IsPlain : (v : Text) → IsCidr v → All IsPlain v × (length v ≤ 29)
IsCidr-IsPlain v c = rw c.spelled (
  All-append IsPlain (inet_ntop c.address) (b'/' ∷ decimal c.prefix)
      (All-map IsAddrChar IsPlain (λ c k. k.0) (inet_ntop c.address) (inet_ntop-plain c.address))
      (
        omega arith,
        All-map IsAddrChar IsPlain (λ c k. k.0) (decimal c.prefix) (decimal-plain c.prefix),
      ),
  length-cidr c.address c.prefix c.is_address c.in_range,
)

pub IsCidr-given : (v : Text) → IsCidr v → is_empty v ≡ false
IsCidr-given v c = rw c.spelled (cidr-ne-empty c.address c.prefix)
