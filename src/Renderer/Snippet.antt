-- ===== src/Renderer/Snippet.antt =====
-- `ipv4_mask` and `lan_match_snippet` of src/renderer.c. `calloc` is taken to succeed.
pub mod Fits
use susanin.Prelude.{
  ℕ, suc, ◌+◌, ◌-◌, ◌*◌, ◌/◌, ◌%◌, ◌^◌, List, [], ◌∷◌, ◌++◌, ◌==◌, if◌then◌else◌, length, take,
}
use susanin.Prelude.Text.{Text, codes}
use susanin.Prelude.Decimal.{decimal}

-- `lan_net_t`
pub record LanNet : Type 0 where
  pub network : Text
  pub prefix : ℕ
  pub mask : Text

-- The mask as a number of 32 bits.
unfoldable pub mask_bits : ℕ → ℕ
mask_bits prefix = if prefix == 0 then 0 else (0xffffffff * 2 ^ (32 - prefix)) % 2 ^ 32

unfoldable pub ipv4_mask : ℕ → Text
unfolding mask_bits
ipv4_mask prefix =
    let m = mask_bits prefix in
    decimal (m / 2 ^ 24 % 256)
    ++ (b'.'
        ∷ (decimal (m / 2 ^ 16 % 256)
            ++ (b'.' ∷ (decimal (m / 2 ^ 8 % 256) ++ (b'.' ∷ decimal (m % 256))))))

-- The buffer that successive calls of `snprintf` fill, and what they return in sum.
pub record Buffer : Type 0 where
  pub text : Text
  pub used : ℕ

-- `used += snprintf(buf + used, cap - used, "%s", t)`. In C the room wraps around behind the end of the
-- buffer, where this one stops at 0.
unfoldable pub put : ℕ → Buffer → Text → Buffer
put cap b t = record { text = b.text ++ take (cap - b.used - 1) t; used = b.used + length t }

unfoldable pub lan_head : Text
unfolding codes
lan_head = codes ":local fromLAN false" ++ (10 ∷ [])

unfoldable pub lan_open : Text
unfolding codes
lan_open = codes ":if ("

unfoldable pub lan_close : Text
unfolding codes
lan_close = codes ") do={ :set fromLAN true }" ++ (10 ∷ [])

unfoldable pub lan_or : Text
unfolding codes
lan_or = codes " || "

-- `(($src & %s) = %s)`
unfoldable pub net_test : LanNet → Text
unfolding codes
net_test n = codes "(($src & " ++ (n.mask ++ (codes ") = " ++ (n.network ++ codes ")")))

-- The loop behind the first network.
unfoldable pub put_nets : ℕ → Buffer → List LanNet → Buffer
unfolding put
put_nets cap b [] = b
put_nets cap b (n ∷ nets) = put_nets cap (put cap (put cap b lan_or) (net_test n)) nets

abbrev pub lan_capacity : List LanNet → ℕ
lan_capacity nets = 256 + length nets * 128

unfoldable pub lan_match_buffer : List LanNet → Buffer
unfolding put put_nets
lan_match_buffer [] = put (lan_capacity []) (record { text = []; used = 0 }) lan_head
lan_match_buffer (n ∷ nets) =
    let cap = lan_capacity (n ∷ nets) in
    let opened = put cap (put cap (record { text = []; used = 0 }) lan_head) lan_open in
    put cap (put_nets cap (put cap opened (net_test n)) nets) lan_close

unfoldable pub lan_match_snippet : List LanNet → Text
unfolding lan_match_buffer
lan_match_snippet nets = (lan_match_buffer nets).text
