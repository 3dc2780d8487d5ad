-- ===== src/Renderer/Build/Lan.antt =====
-- About the networks that `renderer_build` of src/renderer.c collects, and the text it makes of them.
use susanin.Prelude.{
  ℕ, ◌/◌, ◌%◌, ◌^◌, ◌≤◌, ◌<◌, ◌≡◌, not, ◌||◌, List, [], ◌∷◌, Option, some, leb, length,
  length-append, length-take, All, All-append, arith, Bool-cases, Option-cases, inl, inr,
}
use susanin.Prelude.Int.{is_neg}
use susanin.Prelude.Text.{Text, copy_to}
use susanin.Prelude.Decimal.RoundTrip.{length-decimal}
use susanin.Ros.Sentence.{Sentence}
use susanin.Ros.Session.{Router, Session, ros_command}
use susanin.Ros.Session.Keeps.{ros_command-keeps}
use susanin.Config.Options.{Settings}
use susanin.Renderer.Snippet.{
  LanNet, mask_bits, ipv4_mask, lan_capacity, lan_match_buffer, lan_match_snippet,
}
use susanin.Renderer.Snippet.Fits.{IsNet, lan_match_text, lan_match_buffer-fits}
use susanin.Renderer.Build.{
  RenderCtx, has_if, member_of, add_iface, member_cb, address_prefix, add_net, address_of, addr_cb,
  member_words, address_words, no_ctx, query_lan,
}

length-ipv4_mask : (prefix : ℕ) → length (ipv4_mask prefix) ≤ 23
unfolding ipv4_mask
length-ipv4_mask prefix =
    let m = mask_bits prefix in
    omega (
      arith,
      length-append {0},
      length-decimal (m / 2 ^ 24 % 256) (omega arith),
      length-decimal (m / 2 ^ 16 % 256) (omega arith),
      length-decimal (m / 2 ^ 8 % 256) (omega arith),
      length-decimal (m % 256) (omega arith),
    )

-- What the callbacks have collected fits their arrays and their buffers.
pub record Fits (ctx : RenderCtx) : Type 0 where
  pub few_ifs : length ctx.ifs ≤ 64
  pub few_nets : length ctx.nets ≤ 128
  pub nets_fit : All IsNet ctx.nets

length-add_iface :
    (iface : Text) (ifs : List Text) → length ifs ≤ 64 → length (add_iface iface ifs) ≤ 64
unfolding add_iface
length-add_iface iface ifs h = ground (arith, length-append ifs (copy_to 128 iface ∷ []))

member_cb-Fits :
    (lan : Text) (s : Sentence) (ctx : RenderCtx) → Fits ctx → Fits (member_cb lan s ctx).1
unfolding member_cb
member_cb-Fits lan s ctx f = elim (Option-cases (member_of lan s)) [
  | inl e ↦ rw (e, member_cb) f
  | inr (iface, e) ↦
      rw (e, member_cb)
        (record {
          few_ifs = length-add_iface iface ctx.ifs f.few_ifs;
          few_nets = f.few_nets;
          nets_fit = f.nets_fit;
        })
]

-- The networks behind one address.
add_net-Fits :
    (iface address network : Text) (ctx : RenderCtx)
    → Fits ctx
    → (length (add_net iface address network ctx) ≤ 128)
      × All IsNet (add_net iface address network ctx)
unfolding add_net
add_net-Fits iface address network ctx f =
    elim (Bool-cases (not (has_if ctx.ifs iface) || leb 128 (length ctx.nets))) [
      | inl e ↦ rw e (f.few_nets, f.nets_fit)
      | inr e ↦ elim (Option-cases (address_prefix address)) [
        | inl n ↦ rw e (rw (n, add_net) (f.few_nets, f.nets_fit))
        | inr (p, n) ↦
            let net : LanNet = record {
              network = copy_to 64 network;
              prefix = p;
              mask = ipv4_mask p;
            } in
            rw e (
              rw (n, add_net)
                (
                  ground (arith, e, length-append ctx.nets (net ∷ [])),
                  All-append IsNet ctx.nets (net ∷ []) f.nets_fit (
                    record {
                      network_fits = length-take 63 network;
                      mask_fits = length-ipv4_mask p;
                    },
                    tt,
                  ),
                ))
      ]
    ]

addr_cb-Fits :
    (egress : Text) (s : Sentence) (ctx : RenderCtx) → Fits ctx → Fits (addr_cb egress s ctx).1
unfolding addr_cb
addr_cb-Fits egress s ctx f = elim (Option-cases (address_of s)) [
  | inl e ↦ rw (e, addr_cb) f
  | inr ((iface, address, network), e) ↦
      let (few, fit) = add_net-Fits iface address network ctx f in
      rw (e, addr_cb) (record { few_ifs = f.few_ifs; few_nets = few; nets_fit = fit })
]

module _ {R : Router} (read_file : Text → Option Text) (cfg : Settings) where
  query_lan-Fits :
      (s : Session R) (ctx : RenderCtx) → (query_lan read_file cfg s).0 ≡ some ctx → Fits ctx
  unfolding query_lan
  query_lan-Fits s ctx h =
      let first = ros_command s member_words (some (member_cb cfg.lan)) no_ctx in
      let second = ros_command first.2 address_words (some (addr_cb cfg.egress)) first.1 in
      let start : Fits no_ctx = record {
        few_ifs = omega arith;
        few_nets = omega arith;
        nets_fit = tt;
      } in
      let fits : Fits second.1 =
        ros_command-keeps Fits (addr_cb cfg.egress) (addr_cb-Fits cfg.egress) first.2 address_words
          first.1
          (ros_command-keeps Fits (member_cb cfg.lan) (member_cb-Fits cfg.lan) s member_words no_ctx
            start) in
      elim (Bool-cases (is_neg first.0)) [
        | inl e ↦ cc (rw (e, query_lan) at h)
        | inr e ↦ elim (Bool-cases (is_neg second.0)) [
          | inl f ↦ cc (rw f at (rw (e, query_lan) at h))
          | inr f ↦
              let same : second.1 ≡ ctx = ground (arith, rw f at (rw (e, query_lan) at h)) in
              rw (← same) fits
        ]
      ]

  -- Whatever the router answers, the interfaces and networks fit their arrays, and the script text that
  -- tests the networks fits the buffer that is allocated for it, whole.
  pub query_lan-snippet :
      (s : Session R) (ctx : RenderCtx)
      → (query_lan read_file cfg s).0 ≡ some ctx
      → (length ctx.ifs ≤ 64)
        × (length ctx.nets ≤ 128)
        × (lan_match_snippet ctx.nets ≡ lan_match_text ctx.nets)
        × ((lan_match_buffer ctx.nets).used < lan_capacity ctx.nets)
  query_lan-snippet s ctx h =
      let f = query_lan-Fits s ctx h in
      let (whole, used, small) = lan_match_buffer-fits ctx.nets f.nets_fit in
      (f.few_ifs, f.few_nets, whole, omega (arith, used, small))
