-- ===== src/Renderer/Build/Queries.antt =====
-- About what `renderer_build` of src/renderer.c sends.
use susanin.Prelude.{◌≡◌, refl, false, List, Option, some, Bool-cases, inl, inr, arith}
use susanin.Prelude.Int.{is_neg}
use susanin.Prelude.Text.{Text, codes, str_eq}
use susanin.Prelude.Decimal.{is_empty}
use susanin.Ros.Session.{Router, Session, ros_command}
use susanin.Ros.Session.Log.{
  Issued, Issued-refl, Issued-trans, Issued-ros_command, is_change, ends_with,
}
use susanin.Config.Options.{Settings}
use susanin.Renderer.Build.{
  member_cb, addr_cb, member_words, address_words, no_ctx, query_lan, renderer_build,
}

module _ {R : Router} (read_file : Text → Option Text) (cfg : Settings) (P : List Text → Type 0)
    (asks : (words : List Text) → is_change words ≡ false → P words) where
  Issued-query_lan : (s : Session R) → Issued P 0 s (query_lan read_file cfg s).1
  unfolding query_lan is_change ends_with codes str_eq
  Issued-query_lan s =
      let first = ros_command s member_words (some (member_cb cfg.lan)) no_ctx in
      let second = ros_command first.2 address_words (some (addr_cb cfg.egress)) first.1 in
      let one =
        Issued-ros_command P 0 s member_words (some (member_cb cfg.lan)) no_ctx
          (asks member_words refl) (omega arith) in
      let two = Issued-trans P 0 0 0 (omega arith) one (
        Issued-ros_command P 0 first.2 address_words (some (addr_cb cfg.egress)) first.1
          (asks address_words refl) (omega arith)) in
      elim (Bool-cases (is_neg first.0)) [
        | inl e ↦ rw (e, query_lan) one
        | inr e ↦ elim (Bool-cases (is_neg second.0)) [
          | inl f ↦ rw (e, query_lan) (rw f two)
          | inr f ↦ rw (e, query_lan) (rw f two)
        ]
      ]

  -- The renderer only queries the router.
  pub Issued-renderer_build : (s : Session R) → Issued P 0 s (renderer_build read_file cfg s).1
  unfolding renderer_build
  Issued-renderer_build s = elim (Bool-cases (is_empty cfg.table)) [
    | inl e ↦ rw (e, renderer_build) (Issued-refl P 0 s)
    | inr e ↦ rw (e, renderer_build) (Issued-query_lan s)
  ]
