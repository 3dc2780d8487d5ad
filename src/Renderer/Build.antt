-- ===== src/Renderer/Build.antt =====
-- `renderer_build` of src/renderer.c, with its callbacks. The files that the program can read are a
-- parameter, by their path; allocation is taken to succeed.
pub mod Queries
pub mod Lan
use susanin.Prelude.{
  ℕ, ◌+◌, Bool, true, false, not, ◌&&◌, ◌||◌, List, [], ◌∷◌, ◌++◌, Option, none, some, leb, ltb,
  length, any, ◌==◌, if◌then◌else◌, map_some, ◌>>=◌,
}
use susanin.Prelude.Int.{ℤ, pos, is_neg}
use susanin.Prelude.Text.{Text, codes, str_eq, copy_to, c_string}
use susanin.Prelude.Decimal.{strtoul, is_empty}
use susanin.Ros.Sentence.{Sentence, is_reply, get_attr}
use susanin.Ros.Command.{Callback}
use susanin.Ros.Session.{Router, Session, ros_command}
use susanin.Fingerprint.{fnv1a64, fingerprint_hex}
use susanin.Config.Options.{Settings, accuracy_profile_name}
use susanin.Direct.Value.{split_at}
use susanin.Renderer.Replace.{replace_all}
use susanin.Renderer.Snippet.{LanNet, ipv4_mask, lan_match_snippet}

abbrev pub max_lan_ifs : ℕ
max_lan_ifs = 64

abbrev pub max_lan_nets : ℕ
max_lan_nets = 128

-- `render_ctx_t` without the settings.
pub record RenderCtx : Type 0 where
  pub ifs : List Text
  pub nets : List LanNet
  pub egress_address : Text

unfoldable pub has_if : List Text → Text → Bool
has_if ifs name = any (λ i. str_eq i name) ifs

-- `disabled` is `true` or `yes`.
unfoldable pub is_disabled : Sentence → Bool
unfolding str_eq codes
is_disabled s = elim (get_attr s (codes "disabled")) [
  | none ↦ false
  | some d ↦ str_eq d (codes "true") || str_eq d (codes "yes")
]

-- The interface that a reply adds: an enabled member of the list.
unfoldable pub member_of : Text → Sentence → Option Text
unfolding is_disabled
member_of lan s = elim (get_attr s (codes "list")) [
  | none ↦ none
  | some list ↦ elim (get_attr s (codes "interface")) [
    | none ↦ none
    | some iface ↦
        if not (is_reply s (codes "!re"))
          || not (str_eq list lan)
          || is_disabled s
          || is_empty iface
        then none
        else some iface
  ]
]

unfoldable pub add_iface : Text → List Text → List Text
unfolding has_if
add_iface iface ifs =
    if leb max_lan_ifs (length ifs) || has_if ifs iface
    then ifs
    else ifs ++ (copy_to 128 iface ∷ [])

unfoldable pub member_cb : Text → Callback RenderCtx
unfolding member_of add_iface
member_cb lan s ctx = elim (member_of lan s) [
  | none ↦ (pos 0, ctx)
  | some iface ↦ (pos 0, record ctx { ifs = add_iface iface ctx.ifs })
]

-- The prefix length behind the slash of an address.
unfoldable pub address_prefix : Text → Option ℕ
unfolding split_at
address_prefix address = elim (split_at b'/' address) [
  | none ↦ none
  | some p ↦
      let r = strtoul p.1 in if not (is_empty r.end) || ltb 32 r.value then none else some r.value
]

-- The first address of the egress interface.
unfoldable pub keep_egress : Text → Text → Text → Text → Text
keep_egress egress iface address kept =
    if not (is_empty egress) && str_eq iface egress && is_empty kept
    then copy_to 64 address
    else kept

unfoldable pub add_net : Text → Text → Text → RenderCtx → List LanNet
unfolding has_if address_prefix
add_net iface address network ctx =
    let more : List LanNet = elim (address_prefix address) [
      | none ↦ ctx.nets
      | some p ↦
          ctx.nets ++ (record { network = copy_to 64 network; prefix = p; mask = ipv4_mask p } ∷ [])
    ] in
    if not (has_if ctx.ifs iface) || leb max_lan_nets (length ctx.nets) then ctx.nets else more

-- The interface, the address and the network of an enabled reply.
unfoldable pub address_of : Sentence → Option (Text × Text × Text)
unfolding is_disabled
address_of s = elim (get_attr s (codes "interface")) [
  | none ↦ none
  | some iface ↦ elim (get_attr s (codes "address")) [
    | none ↦ none
    | some address ↦ elim (get_attr s (codes "network")) [
      | none ↦ none
      | some network ↦
          if not (is_reply s (codes "!re")) || is_disabled s
          then none
          else some (iface, address, network)
    ]
  ]
]

unfoldable pub addr_cb : Text → Callback RenderCtx
unfolding address_of keep_egress add_net
addr_cb egress s ctx = elim (address_of s) [
  | none ↦ (pos 0, ctx)
  | some (iface, address, network) ↦ (
    pos 0,
    record ctx {
      nets = add_net iface address network ctx;
      egress_address = keep_egress egress iface address ctx.egress_address;
    },
  )
]

unfoldable pub log_level_rank : Text → ℕ
unfolding str_eq codes
log_level_rank level =
    if str_eq level (codes "quiet")
    then 0
    else if str_eq level (codes "error")
    then 1
    else if str_eq level (codes "info")
    then 2
    else if str_eq level (codes "debug")
    then 3
    else if str_eq level (codes "trace")
    then 4
    else 2

unfoldable pub log_enabled : Settings → ℕ → Text
unfolding log_level_rank codes
log_enabled cfg required =
    if leb required (log_level_rank cfg.log_level) then codes "true" else codes "false"

-- `load_template`, over the files that can be read.
unfoldable pub load_template : (Text → Option Text) → Text → Option Text
unfolding codes
load_template read_file name =
    elim (read_file (copy_to 512 (codes "/usr/share/susanin/templates/" ++ name))) [
      | some bytes ↦ some (c_string bytes)
      | none ↦ map_some c_string (read_file (copy_to 512 (codes "templates/" ++ name)))
    ]

-- `susanin_rendered_script_t`
pub record RenderedScript : Type 0 where
  pub name : Text
  pub source : Text
  pub bytes : ℕ
  pub fp : Text

-- The names in a template and what stands for them, in the order in which they are replaced.
unfoldable pub placeholders : Settings → Text → List (Text × Text)
unfolding log_enabled codes
placeholders cfg lan_match =
    (codes "{{LAN_MATCH}}", lan_match)
    ∷ (codes "{{EGRESS_INTERFACE}}", cfg.egress)
    ∷ (codes "{{LAN_LIST}}", cfg.lan)
    ∷ (codes "{{ROUTING_TABLE}}", cfg.table)
    ∷ (codes "{{LOG_ERROR}}", log_enabled cfg 1)
    ∷ (codes "{{LOG_INFO}}", log_enabled cfg 2)
    ∷ (codes "{{LOG_DEBUG}}", log_enabled cfg 3)
    ∷ (codes "{{ACCURACY_PROFILE}}", accuracy_profile_name cfg.profile)
    ∷ []

unfoldable pub replace_each : List (Text × Text) → Text → Option Text
unfolding replace_all
replace_each [] src = some src
replace_each (p ∷ ps) src = replace_all src p.0 p.1 >>= replace_each ps

module _ (read_file : Text → Option Text) (cfg : Settings) where
  unfoldable pub render_one : Text → Text → Text → Option RenderedScript
  unfolding load_template placeholders replace_each
  render_one tmpl_name script_name lan_match =
      load_template read_file tmpl_name >>= replace_each (placeholders cfg lan_match) >>= (λ source.
        some (record {
          name = copy_to 32 script_name;
          source = source;
          bytes = length source;
          fp = fingerprint_hex source;
        }))

  -- The loop over the four scripts: a template and a name each.
  unfoldable pub render_all : List (Text × Text) → Text → Option (List RenderedScript)
  unfolding render_one
  render_all [] lan_match = some []
  render_all (p ∷ ps) lan_match = elim (render_one p.0 p.1 lan_match) [
    | none ↦ none
    | some script ↦ map_some (λ more. script ∷ more) (render_all ps lan_match)
  ]

-- The templates and the names of the scripts.
unfoldable pub script_files : List (Text × Text)
unfolding codes
script_files =
    (codes "health.rsc.tmpl", codes "auto-awg-health")
    ∷ (codes "fast.rsc.tmpl", codes "auto-awg-fast")
    ∷ (codes "soft.rsc.tmpl", codes "auto-awg-detect")
    ∷ (codes "judge.rsc.tmpl", codes "auto-awg-judge")
    ∷ []

-- `susanin_render_bundle_t`
pub record RenderBundle : Type 0 where
  pub scripts : List RenderedScript
  pub lan_networks : ℕ
  pub egress_address : Text

-- The bundle for what the queries have collected.
unfoldable pub bundle_of : (Text → Option Text) → Settings → RenderCtx → Option RenderBundle
unfolding render_all script_files
bundle_of read_file cfg ctx =
    if is_empty cfg.egress || is_empty ctx.egress_address
    then none
    else map_some
        (λ scripts. record {
          scripts = scripts;
          lan_networks = length ctx.nets;
          egress_address = copy_to 64 ctx.egress_address;
        })
        (render_all read_file cfg script_files (lan_match_snippet ctx.nets))

abbrev pub member_words : List Text
member_words =
    codes "/interface/list/member/print" ∷ codes "=.proplist=list,interface,disabled" ∷ []

abbrev pub address_words : List Text
address_words =
    codes "/ip/address/print" ∷ codes "=.proplist=address,network,interface,disabled" ∷ []

abbrev pub no_ctx : RenderCtx
no_ctx = record { ifs = []; nets = []; egress_address = [] }

-- The tests behind the queries: an interface and a network at least.
unfoldable pub is_usable : RenderCtx → Bool
is_usable ctx = not (length ctx.ifs == 0) && not (length ctx.nets == 0)

module _ {R : Router} (read_file : Text → Option Text) (cfg : Settings) where
  -- The two queries; none when one of them failed.
  unfoldable pub query_lan : Session R → Option RenderCtx × Session R
  unfolding member_cb addr_cb
  query_lan s =
      let (rc1, ctx1, s1) = ros_command s member_words (some (member_cb cfg.lan)) no_ctx in
      let (rc2, ctx2, s2) = ros_command s1 address_words (some (addr_cb cfg.egress)) ctx1 in
      if is_neg rc1 then (none, s1) else if is_neg rc2 then (none, s2) else (some ctx2, s2)

  unfoldable pub renderer_build : Session R → Option RenderBundle × Session R
  unfolding query_lan is_usable bundle_of
  renderer_build s =
      let (found, s1) = query_lan s in
      let built : Option RenderBundle = elim found [
        | none ↦ none
        | some ctx ↦ if is_usable ctx then bundle_of read_file cfg ctx else none
      ] in
      if is_empty cfg.table then (none, s) else (built, s1)
