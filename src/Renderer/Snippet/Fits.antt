-- ===== src/Renderer/Snippet/Fits.antt =====
-- About the buffer of `lan_match_snippet` of src/renderer.c.
use susanin.Prelude.{
  ℕ, ◌+◌, ◌-◌, ◌*◌, ◌≤◌, ◌<◌, ◌≡◌, refl, ap, ◌∙◌, List, [], ◌∷◌, ◌++◌, length, length-append,
  take-all, All, arith,
}
use susanin.Prelude.Text.{Text, codes}
use susanin.Renderer.Snippet.{
  LanNet, Buffer, put, lan_head, lan_open, lan_close, lan_or, net_test, put_nets, lan_capacity,
  lan_match_buffer, lan_match_snippet,
}
use mathlib.Core.List.{append_assoc, append-nil}

-- A network as the query of the addresses stores it.
pub record IsNet (n : LanNet) : Type 0 where
  pub network_fits : length n.network ≤ 63
  pub mask_fits : length n.mask ≤ 23

-- The tests of the networks, with nothing in front of the first one.
unfoldable pub more_tests : List LanNet → Text
more_tests [] = []
more_tests (n ∷ nets) = lan_or ++ (net_test n ++ more_tests nets)

-- The snippet as a text: no network matches, or one of them does.
unfoldable pub lan_match_text : List LanNet → Text
lan_match_text [] = lan_head
lan_match_text (n ∷ nets) = lan_head ++ (lan_open ++ (net_test n ++ (more_tests nets ++ lan_close)))

length-net_test : (n : LanNet) → IsNet n → length (net_test n) ≤ 101
unfolding net_test codes
length-net_test n v = omega (
  arith,
  length-append n.mask (codes ") = " ++ (n.network ++ codes ")")),
  length-append n.network (codes ")"),
  v.network_fits,
  v.mask_fits,
)

length-lan_head : length lan_head ≡ 21
unfolding lan_head
length-lan_head = refl

length-lan_open : length lan_open ≡ 5
unfolding lan_open
length-lan_open = refl

length-lan_or : length lan_or ≡ 4
unfolding lan_or
length-lan_or = refl

length-lan_close : length lan_close ≡ 27
unfolding lan_close
length-lan_close = refl

-- A buffer holds all that was put into it.
record IsWhole (cap : ℕ) (b : Buffer) (t : Text) : Type 0 where
  text_is : b.text ≡ t
  used_is : b.used ≡ length t

empty_buffer : {cap : ℕ} → IsWhole cap (record { text = []; used = 0 }) []
empty_buffer = record { text_is = refl; used_is = refl }

put-IsWhole :
    (cap : ℕ) (b : Buffer) (old t : Text)
    → IsWhole cap b old
    → length old + length t < cap
    → IsWhole cap (put cap b t) (old ++ t)
unfolding put
put-IsWhole cap b old t w h =
    let all = take-all (cap - b.used - 1) t (omega (arith, w.used_is, h)) in
    record {
      text_is = rw w.text_is (rw all refl);
      used_is = omega (arith, w.used_is, length-append old t);
    }

put_nets-IsWhole :
    (cap : ℕ) (nets : List LanNet) (b : Buffer) (old : Text)
    → IsWhole cap b old
    → All IsNet nets
    → length old + length nets * 128 < cap
    → IsWhole cap (put_nets cap b nets) (old ++ more_tests nets)
      × (length (old ++ more_tests nets) ≤ length old + length nets * 128)
unfolding put_nets more_tests
put_nets-IsWhole cap [] b old w v h = rw append-nil (w, omega arith)
put_nets-IsWhole cap (n ∷ nets) b old w v h =
    let test = length-net_test n v.0 in
    let start : length (old ++ lan_or) ≡ length old + 4 =
      omega (arith, length-append old lan_or, length-lan_or) in
    let sum = length-append (old ++ lan_or) (net_test n) in
    let whole =
      put-IsWhole cap (put cap b lan_or) (old ++ lan_or) (net_test n)
        (put-IsWhole cap b old lan_or w (omega (arith, h, length-lan_or)))
        (omega (arith, h, start, test)) in
    let (rest, bound) =
      put_nets-IsWhole cap nets (put cap (put cap b lan_or) (net_test n))
        ((old ++ lan_or) ++ net_test n) whole v.1 (omega (arith, h, start, sum, test)) in
    let same : ((old ++ lan_or) ++ net_test n) ++ more_tests nets
        ≡ old ++ (lan_or ++ (net_test n ++ more_tests nets)) =
      append_assoc (old ++ lan_or) (net_test n) (more_tests nets)
      ∙ append_assoc old lan_or (net_test n ++ more_tests nets) in
    (rw (← same) rest, rw (← same) (omega (arith, bound, start, sum, test)))

-- The buffer of `lan_match_snippet` is large enough for every list of networks: nothing is cut, and the
-- room that is left never falls to zero, so that it never wraps around.
pub lan_match_buffer-fits :
    (nets : List LanNet)
    → All IsNet nets
    → (lan_match_snippet nets ≡ lan_match_text nets)
      × ((lan_match_buffer nets).used ≡ length (lan_match_text nets))
      × (length (lan_match_text nets) < lan_capacity nets)
unfolding lan_match_snippet lan_match_buffer lan_match_text
lan_match_buffer-fits [] v =
    let w =
      put-IsWhole 256 (record { text = []; used = 0 }) [] lan_head empty_buffer
        (omega (arith, length-lan_head)) in
    (w.text_is, w.used_is, omega (arith, length-lan_head))
lan_match_buffer-fits (n ∷ nets) v =
    let cap = lan_capacity (n ∷ nets) in
    let b0 : Buffer = record { text = []; used = 0 } in
    let b1 = put cap b0 lan_head in
    let b2 = put cap b1 lan_open in
    let b3 = put cap b2 (net_test n) in
    let test = length-net_test n v.0 in
    let l2 : length (lan_head ++ lan_open) ≡ 26 =
      omega (arith, length-append lan_head lan_open, length-lan_head, length-lan_open) in
    let t3 = (lan_head ++ lan_open) ++ net_test n in
    let l3 = length-append (lan_head ++ lan_open) (net_test n) in
    let w1 = put-IsWhole cap b0 [] lan_head empty_buffer (omega (arith, length-lan_head)) in
    let w2 =
      put-IsWhole cap b1 lan_head lan_open w1 (omega (arith, length-lan_head, length-lan_open)) in
    let w3 = put-IsWhole cap b2 (lan_head ++ lan_open) (net_test n) w2 (omega (arith, l2, test)) in
    let (w4, bound) = put_nets-IsWhole cap nets b3 t3 w3 v.1 (omega (arith, l2, l3, test)) in
    let small : length (t3 ++ more_tests nets) + length lan_close < cap =
      omega (arith, bound, l2, l3, test, length-lan_close) in
    let w5 = put-IsWhole cap (put_nets cap b3 nets) (t3 ++ more_tests nets) lan_close w4 small in
    let same : (t3 ++ more_tests nets) ++ lan_close
        ≡ lan_head ++ (lan_open ++ (net_test n ++ (more_tests nets ++ lan_close))) =
      append_assoc t3 (more_tests nets) lan_close
      ∙ append_assoc (lan_head ++ lan_open) (net_test n) (more_tests nets ++ lan_close)
      ∙ append_assoc lan_head lan_open (net_test n ++ (more_tests nets ++ lan_close)) in
    (
      w5.text_is ∙ same,
      w5.used_is ∙ ap length same,
      omega (arith, small, length-append (t3 ++ more_tests nets) lan_close, ap length same),
    )
