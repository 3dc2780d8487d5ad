-- ===== src/Apply/Rules.antt =====
-- The fixed mangle rules of src/apply.c: what is expected, the look for one and the comparison.
use susanin.Prelude.{
  ℕ, ◌+◌, ◌%◌, ◌^◌, Bool, true, false, not, ◌&&◌, ◌||◌, List, [], ◌∷◌, ◌++◌, Option, none, some,
  ◌==◌, if◌then◌else◌,
}
use susanin.Prelude.Int.{ℤ, pos}
use susanin.Prelude.Text.{Text, codes, str_eq, copy_to, starts_with}
use susanin.Prelude.Decimal.{is_empty}
use susanin.Ros.Sentence.{Sentence, is_reply, get_attr}
use susanin.Ros.Command.{Callback}
use susanin.Ros.Session.{Router, Session, ros_command}
use susanin.Config.Options.{Settings}

-- `expected_mangle_t` without its `new_route_mark`, which is set and never compared.
pub record ExpectedMangle : Type 0 where
  pub comment : Text
  pub action : Text
  pub protocol : Option Text
  pub dst_list : Option Text
  pub conn_mark : Option Text
  pub new_conn_mark : Option Text
  pub dst_port : Option Text

-- A rule that marks the connections of a list.
unfoldable pub mark_rule : Text → Text → Text → Text → ExpectedMangle
mark_rule comment protocol dst_list mark = record {
  comment = comment;
  action = codes "mark-connection";
  protocol = some protocol;
  dst_list = some dst_list;
  conn_mark = some (codes "no-mark");
  new_conn_mark = some mark;
  dst_port = none;
}

-- A rule that routes the connections of a mark.
unfoldable pub route_rule : Text → Text → ExpectedMangle
route_rule comment mark = record {
  comment = comment;
  action = codes "mark-routing";
  protocol = none;
  dst_list = none;
  conn_mark = some mark;
  new_conn_mark = none;
  dst_port = none;
}

-- A rule that routes the router's own queries.
unfoldable pub dns_rule : Text → Text → ExpectedMangle
dns_rule comment protocol = record {
  comment = comment;
  action = codes "mark-routing";
  protocol = some protocol;
  dst_list = none;
  conn_mark = none;
  new_conn_mark = none;
  dst_port = some (codes "53");
}

unfoldable pub mangle_expected : List ExpectedMangle
unfolding codes mark_rule route_rule dns_rule
mangle_expected =
    mark_rule (codes "AUTO-AWG: L2 mark confirmed") (codes "tcp") (codes "auto_awg_ok_tcp")
      (codes "auto-awg-ok-conn")
    ∷ mark_rule (codes "AUTO-AWG: L1 mark test") (codes "tcp") (codes "auto_awg_test_tcp")
        (codes "auto-awg-test-conn")
    ∷ mark_rule (codes "AUTO-AWG: L2 mark confirmed UDP") (codes "udp") (codes "auto_awg_ok_udp")
        (codes "auto-awg-ok-conn")
    ∷ mark_rule (codes "AUTO-AWG: L1 mark test UDP") (codes "udp") (codes "auto_awg_test_udp")
        (codes "auto-awg-test-conn")
    ∷ route_rule (codes "AUTO-AWG: L2 route confirmed") (codes "auto-awg-ok-conn")
    ∷ route_rule (codes "AUTO-AWG: L1 route test") (codes "auto-awg-test-conn")
    ∷ dns_rule (codes "AUTO-AWG: router DNS UDP via tunnel") (codes "udp")
    ∷ dns_rule (codes "AUTO-AWG: router DNS TCP via tunnel") (codes "tcp")
    ∷ []

-- `current_mangle_t`
pub record CurrentMangle : Type 0 where
  pub comment : Text
  pub action : Text
  pub protocol : Text
  pub dst_list : Text
  pub conn_mark : Text
  pub new_conn_mark : Text
  pub new_route_mark : Text
  pub dst_port : Text
  pub in_list : Text
  pub disabled : Text

abbrev pub no_mangle : CurrentMangle
no_mangle = record {
  comment = [];
  action = [];
  protocol = [];
  dst_list = [];
  conn_mark = [];
  new_conn_mark = [];
  new_route_mark = [];
  dst_port = [];
  in_list = [];
  disabled = [];
}

unfoldable pub attr_false : Option Text → Bool
unfolding codes
attr_false none = true
attr_false (some v) = is_empty v || str_eq v (codes "false") || str_eq v (codes "no")

unfoldable pub str_eq_opt : Option Text → Option Text → Bool
str_eq_opt actual none = true
str_eq_opt none (some expected) = false
str_eq_opt (some actual) (some expected) = str_eq actual expected

-- `copy_attr` into a buffer of `cap` bytes.
unfoldable pub copy_attr : ℕ → Option Text → Text
copy_attr cap none = []
copy_attr cap (some v) = copy_to cap v

-- `mangle_lookup_ctx_t` without the comment.
pub record MangleLookup : Type 0 where
  pub out : CurrentMangle
  pub matches : ℕ

unfoldable pub current_mangle : Text → Sentence → CurrentMangle
unfolding copy_attr
current_mangle comment s = record {
  comment = copy_attr 96 (some comment);
  action = copy_attr 32 (get_attr s (codes "action"));
  protocol = copy_attr 16 (get_attr s (codes "protocol"));
  dst_list = copy_attr 64 (get_attr s (codes "dst-address-list"));
  conn_mark = copy_attr 64 (get_attr s (codes "connection-mark"));
  new_conn_mark = copy_attr 64 (get_attr s (codes "new-connection-mark"));
  new_route_mark = copy_attr 64 (get_attr s (codes "new-routing-mark"));
  dst_port = copy_attr 32 (get_attr s (codes "dst-port"));
  in_list = copy_attr 64 (get_attr s (codes "in-interface-list"));
  disabled = copy_attr 16 (get_attr s (codes "disabled"));
}

-- The first match is kept, and all of them are counted.
unfoldable pub mangle_lookup_cb : Text → Callback MangleLookup
unfolding current_mangle
mangle_lookup_cb wanted s ctx = elim (get_attr s (codes "comment")) [
  | none ↦ (pos 0, ctx)
  | some comment ↦
      let n = (ctx.matches + 1) % 2 ^ 32 in
      if not (is_reply s (codes "!re")) || not (str_eq comment wanted)
      then (pos 0, ctx)
      else if n == 1
      then (pos 0, record { out = current_mangle comment s; matches = n })
      else (pos 0, record ctx { matches = n })
]

abbrev pub mangle_words : Text → List Text
mangle_words comment =
    codes "/ip/firewall/mangle/print"
    ∷ codes
        "=.proplist=comment,action,protocol,dst-address-list,connection-mark,new-connection-mark,new-routing-mark,dst-port,in-interface-list,disabled"
    ∷ copy_to 256 (codes "?comment=" ++ comment)
    ∷ []

unfoldable pub lookup_mangle_exact : {R : Router} → Session R → Text → ℤ × MangleLookup × Session R
unfolding mangle_lookup_cb
lookup_mangle_exact s comment =
    ros_command s (mangle_words comment) (some (mangle_lookup_cb comment))
      (record { out = no_mangle; matches = 0 })

-- `strstr(s, needle) != NULL`
unfoldable pub contains : Text → Text → Bool
contains needle [] = starts_with needle []
contains needle (c ∷ cs) = starts_with needle (c ∷ cs) || contains needle cs

-- An attribute that was not shown is an empty one.
unfoldable pub if_shown : Text → Option Text
if_shown v = if is_empty v then none else some v

-- The rules that carry the routing mark.
unfoldable pub has_route_mark : Text → Bool
unfolding contains codes
has_route_mark comment =
    starts_with (codes "AUTO-AWG: L2 route") comment
    || starts_with (codes "AUTO-AWG: L1 route") comment
    || contains (codes "router DNS") comment

-- The rules on the traffic of the LAN.
unfoldable pub has_in_list : Text → Bool
unfolding contains codes
has_in_list comment =
    starts_with (codes "AUTO-AWG: L") comment && not (contains (codes "router DNS") comment)

unfoldable pub mangle_matches : CurrentMangle → ExpectedMangle → Settings → Bool
unfolding str_eq_opt if_shown attr_false has_route_mark has_in_list
mangle_matches m e cfg =
    str_eq m.action e.action
    && str_eq_opt (if_shown m.protocol) e.protocol
    && str_eq_opt (if_shown m.dst_list) e.dst_list
    && str_eq_opt (if_shown m.conn_mark) e.conn_mark
    && str_eq_opt (if_shown m.new_conn_mark) e.new_conn_mark
    && str_eq_opt (if_shown m.dst_port) e.dst_port
    && attr_false (if_shown m.disabled)
    && (not (has_route_mark e.comment)
        || not (is_empty cfg.table) && str_eq m.new_route_mark cfg.table)
    && (not (has_in_list e.comment) || not (is_empty cfg.lan) && str_eq m.in_list cfg.lan)
