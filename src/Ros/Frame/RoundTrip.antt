-- ===== src/Ros/Frame/RoundTrip.antt =====
-- About `encode_len` and `recv_len` of src/routeros_api.c.
use susanin.Prelude.{ℕ, ◌+◌, ◌*◌, ◌/◌, ◌%◌, ◌^◌, ◌<◌, ◌≤◌, ◌≡◌, refl, List, [], ◌∷◌, ◌++◌, Option}
use susanin.Prelude.{none, some, bit_or, ltb, ◌==◌, length, if◌then◌else◌, arith, Bool-cases}
use susanin.Prelude.{inl, inr, Option-cases, length-append}
use susanin.Prelude.Bits.{bit_or_low_high, bit_or_high_low, byte_and_80, byte_and_c0, byte_and_e0}
use susanin.Prelude.Bits.{byte_and_f0, byte_and_3f, byte_and_1f, byte_and_0f}
use susanin.Ros.Socket.{Stream, read_all}
use susanin.Ros.Socket.Delivers.{available, read_all-available, read_all_takes}
use susanin.Ros.Frame.{encode_len, len_form, len_value, recv_rest, recv_len}
use susanin.Ros.Frame.{join_two, join_three, join_four}

-- The forms by the value of the first byte.
len_form_lem :
    (b : ℕ)
    → b < 256
    → len_form b ≡ (
        if ltb b 128
        then some (0, b)
        else if ltb b 192
        then some (1, b % 64)
        else if ltb b 224
        then some (2, b % 32)
        else if ltb b 240
        then some (3, b % 16)
        else if b == 240
        then some (4, 0)
        else none)
unfolding len_form
len_form_lem b h = ground (
  arith,
  byte_and_80 b h,
  byte_and_c0 b h,
  byte_and_e0 b h,
  byte_and_f0 b h,
  byte_and_3f b h,
  byte_and_1f b h,
  byte_and_0f b h,
)

join_two_lem : (a b : ℕ) → b < 256 → join_two a b ≡ a * 256 + b
join_two_lem a b h = omega (arith, bit_or_high_low 8 b a h)

join_three_lem : (a b c : ℕ) → b < 256 → c < 256 → join_three a b c ≡ a * 65536 + b * 256 + c
join_three_lem a b c hb hc =
    let e : bit_or (a * 2 ^ 16) (b * 2 ^ 8) ≡ (a * 256 + b) * 2 ^ 8 =
      omega (arith, bit_or_high_low 16 (b * 2 ^ 8) a (omega arith)) in
    rw e (omega (arith, bit_or_high_low 8 c (a * 256 + b) hc))

join_four_lem :
    (a b c d : ℕ)
    → b < 256
    → c < 256
    → d < 256
    → join_four a b c d ≡ a * 2 ^ 24 + b * 65536 + c * 256 + d
join_four_lem a b c d hb hc hd =
    let e : bit_or (a * 2 ^ 24) (b * 2 ^ 16) ≡ (a * 256 + b) * 2 ^ 16 =
      omega (arith, bit_or_high_low 24 (b * 2 ^ 16) a (omega arith)) in
    rw e (omega (arith, join_three_lem (a * 256 + b) c d hc hd))

-- One encoding: its first byte says how many bytes follow, and they hold the length.
record Encodes (len : ℕ) : Type 0 where
  first : ℕ
  kept : ℕ
  following : List ℕ
  written : encode_len len ≡ first ∷ following
  form : len_form first ≡ some (length following, kept)
  value : len_value kept following ≡ some len

encode_one : (len : ℕ) → len < 0x80 → Encodes len
unfolding encode_len len_value
encode_one len h = record {
  first = len;
  kept = len;
  following = [];
  written = ground arith;
  form = ground (arith, len_form_lem len);
  value = refl;
}

encode_two : (len : ℕ) → 0x80 ≤ len → len < 0x4000 → Encodes len
unfolding encode_len len_value
encode_two len l h = record {
  first = 128 + len / 256;
  kept = len / 256;
  following = len % 256 ∷ [];
  written = ground (arith, bit_or_low_high 15 len 1);
  form = ground (arith, len_form_lem (128 + len / 256));
  value = ground (arith, join_two_lem (len / 256) (len % 256));
}

encode_three : (len : ℕ) → 0x4000 ≤ len → len < 0x20_0000 → Encodes len
unfolding encode_len len_value
encode_three len l h = record {
  first = 192 + len / 65536;
  kept = len / 65536;
  following = len / 256 % 256 ∷ len % 256 ∷ [];
  written = ground (arith, bit_or_low_high 22 len 3);
  form = ground (arith, len_form_lem (192 + len / 65536));
  value = ground (arith, join_three_lem (len / 65536) (len / 256 % 256) (len % 256));
}

encode_four : (len : ℕ) → 0x20_0000 ≤ len → len < 0x1000_0000 → Encodes len
unfolding encode_len len_value
encode_four len l h = record {
  first = 224 + len / 2 ^ 24;
  kept = len / 2 ^ 24;
  following = len / 65536 % 256 ∷ len / 256 % 256 ∷ len % 256 ∷ [];
  written = ground (arith, bit_or_low_high 29 len 7);
  form = ground (arith, len_form_lem (224 + len / 2 ^ 24));
  value =
      ground
        (arith, join_four_lem (len / 2 ^ 24) (len / 65536 % 256) (len / 256 % 256) (len % 256));
}

encode_five : (len : ℕ) → 0x1000_0000 ≤ len → len < 2 ^ 32 → Encodes len
unfolding encode_len len_value
encode_five len l h = record {
  first = 240;
  kept = 0;
  following = len / 2 ^ 24 ∷ len / 65536 % 256 ∷ len / 256 % 256 ∷ len % 256 ∷ [];
  written = ground arith;
  form = ground (arith, len_form_lem 240);
  value =
      ground
        (arith, join_four_lem (len / 2 ^ 24) (len / 65536 % 256) (len / 256 % 256) (len % 256));
}

encode_len-Encodes : (len : ℕ) → len < 2 ^ 32 → Encodes len
encode_len-Encodes len h = elim (Bool-cases (ltb len 0x80)) [
  | inl a ↦ encode_one len (ground arith)
  | inr a ↦ elim (Bool-cases (ltb len 0x4000)) [
    | inl b ↦ encode_two len (ground arith) (ground arith)
    | inr b ↦ elim (Bool-cases (ltb len 0x20_0000)) [
      | inl c ↦ encode_three len (ground arith) (ground arith)
      | inr c ↦ elim (Bool-cases (ltb len 0x1000_0000)) [
        | inl d ↦ encode_four len (ground arith) (ground arith)
        | inr d ↦ encode_five len (ground arith) h
      ]
    ]
  ]
]

-- `recv_len` reads the length that `encode_len` wrote, however the network cuts the bytes, and leaves
-- what follows.
pub recv_len-encode_len :
    (len : ℕ) (rest : List ℕ) (s : Stream)
    → len < 2 ^ 32
    → available s ≡ encode_len len ++ rest
    → (s' : Stream) × (recv_len s ≡ some (len, s')) × (available s' ≡ rest)
unfolding recv_len
recv_len-encode_len len rest s h e =
    let c : Encodes len = encode_len-Encodes len h in
    let (s1, r1, a1) =
      read_all-available (c.first ∷ []) (c.following ++ rest) s (cc (e, c.written)) in
    let (s2, r2, a2) = read_all-available c.following rest s1 a1 in
    (s2, rw (r1, recv_len) (rw c.form (rw (r2, recv_rest) (rw c.value))), a2)

recv_rest_takes :
    (form : Option (ℕ × ℕ)) (s : Stream) (len : ℕ) (s' : Stream)
    → recv_rest form s ≡ some (len, s')
    → length (available s') ≤ length (available s)
unfolding recv_rest
recv_rest_takes none s len s' h = cc
recv_rest_takes (some (n, a)) s len s' h = elim (Option-cases (read_all n s)) [
  | inl e ↦ cc (rw (e, recv_rest) at h)
  | inr ((bs, s1), e) ↦
      ground
        (arith, rw (e, recv_rest) at h, read_all_takes n s bs s1 e, length-append bs (available s1))
]

-- Whatever the bytes, a successful `recv_len` has taken at least one of them.
pub recv_len_takes :
    (s : Stream) (len : ℕ) (s' : Stream)
    → recv_len s ≡ some (len, s')
    → length (available s') < length (available s)
unfolding recv_len
recv_len_takes s len s' h = elim (Option-cases (read_all 1 s)) [
  | inl e ↦ cc (rw (e, recv_len) at h)
  | inr (([], s1), e) ↦ cc (rw (e, recv_len) at h)
  | inr ((b ∷ bs, s1), e) ↦ ground (
    arith,
    read_all_takes 1 s (b ∷ bs) s1 e,
    length-append (b ∷ bs) (available s1),
    recv_rest_takes (len_form b) s1 len s' (rw (e, recv_len) at h),
  )
]

-- The length takes one to five bytes.
pub length-encode_len : (len : ℕ) → (1 ≤ length (encode_len len)) × (length (encode_len len) ≤ 5)
unfolding encode_len
length-encode_len len = ground arith
