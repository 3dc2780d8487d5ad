-- ===== src/Ros/Frame.antt =====
-- Words on the wire, src/routeros_api.c: `encode_len`, `recv_len` and what `send_word` writes.
pub mod RoundTrip
use susanin.Prelude.{ℕ, ◌-◌, ◌*◌, ◌/◌, ◌%◌, ◌^◌, List, [], ◌∷◌, ◌++◌}
use susanin.Prelude.{Option, none, some, bit_and, bit_or, ltb, leb, ◌==◌, length, if◌then◌else◌}
use susanin.Prelude.Text.{Text}
use susanin.Ros.Socket.{Stream, read_all}

-- `(unsigned char)(v >> k)`
abbrev byte_at : ℕ → ℕ → ℕ
byte_at v k = v / 2 ^ k % 256

-- The bytes that `encode_len` puts into `out`, in order; their number is its result.
unfoldable pub encode_len : ℕ → List ℕ
encode_len len =
    if ltb len 0x80
    then byte_at len 0 ∷ []
    else if ltb len 0x4000
    then (let v = bit_or len 0x8000 in byte_at v 8 ∷ byte_at v 0 ∷ [])
    else if ltb len 0x20_0000
    then (let v = bit_or len 0xc0_0000 in byte_at v 16 ∷ byte_at v 8 ∷ byte_at v 0 ∷ [])
    else if ltb len 0x1000_0000
    then (let v = bit_or len 0xe000_0000 in
        byte_at v 24 ∷ byte_at v 16 ∷ byte_at v 8 ∷ byte_at v 0 ∷ [])
    else 0xf0 ∷ byte_at len 24 ∷ byte_at len 16 ∷ byte_at len 8 ∷ byte_at len 0 ∷ []

-- The bytes of `send_word`: `none` is the word that is longer than `UINT32_MAX`.
unfoldable pub send_word : Text → Option (List ℕ)
send_word word =
    if ltb (2 ^ 32 - 1) (length word) then none else some (encode_len (length word) ++ word)

-- Big-endian fields, as the shifts and ors of `recv_len` put them together.
abbrev join_two : ℕ → ℕ → ℕ
join_two a b = bit_or (a * 2 ^ 8) b

abbrev join_three : ℕ → ℕ → ℕ → ℕ
join_three a b c = bit_or (bit_or (a * 2 ^ 16) (b * 2 ^ 8)) c

abbrev join_four : ℕ → ℕ → ℕ → ℕ → ℕ
join_four a b c d = bit_or (bit_or (bit_or (a * 2 ^ 24) (b * 2 ^ 16)) (c * 2 ^ 8)) d

-- The branch that `recv_len` takes on its first byte: how many more bytes it reads and what it keeps
-- of the first, or its last `return -1`.
unfoldable pub len_form : ℕ → Option (ℕ × ℕ)
len_form b =
    if bit_and b 0x80 == 0
    then some (0, b)
    else if bit_and b 0xc0 == 0x80
    then some (1, bit_and b 0x3f)
    else if bit_and b 0xe0 == 0xc0
    then some (2, bit_and b 0x1f)
    else if bit_and b 0xf0 == 0xe0
    then some (3, bit_and b 0x0f)
    else if b == 0xf0
    then some (4, 0)
    else none

-- `*out` from what is kept of the first byte and the bytes read behind it.
unfoldable pub len_value : ℕ → List ℕ → Option ℕ
len_value a [] = some a
len_value a (b ∷ []) = some (join_two a b)
len_value a (b ∷ c ∷ []) = some (join_three a b c)
len_value a (b ∷ c ∷ d ∷ []) = some (join_four a b c d)
len_value a (b ∷ c ∷ d ∷ e ∷ []) = some (join_four b c d e)
len_value a _ = none

recv_rest : Option (ℕ × ℕ) → Stream → Option (ℕ × Stream)
recv_rest none s = none
recv_rest (some (n, a)) s = elim (read_all n s) [
  | none ↦ none
  | some (bs, s') ↦ elim (len_value a bs) [ none ↦ none | some v ↦ some (v, s') ]
]

unfoldable pub recv_len : Stream → Option (ℕ × Stream)
unfolding recv_rest
recv_len s = elim (read_all 1 s) [
  | none ↦ none
  | some (bs, s') ↦ elim bs [ [] ↦ none | b ∷ _ ↦ recv_rest (len_form b) s' ]
]
