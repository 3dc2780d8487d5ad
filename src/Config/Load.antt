-- ===== src/Config/Load.antt =====
-- `config_load_local`, src/config.c: reading the file line by line, and the defaults.
pub mod Sane
use susanin.Prelude.{
  ℕ, zero, suc, ◌-◌, ◌^◌, Bool, true, false, not, ◌&&◌, ◌||◌, List, [], ◌∷◌, ◌++◌, Option, none,
  some, ltb, ◌==◌, if◌then◌else◌, map_some,
}
use susanin.Prelude.Text.{Text, codes, str_eq, copy_to, c_string}
use susanin.Prelude.Decimal.{strtoul, Strtoul, skip_space, is_empty}
use susanin.Config.Options.{
  TargetMode, interface, routing_table, Profile, fast, Settings, valid_log_level, parse_target_mode,
  parse_accuracy_profile, parse_unsigned_range, parse_switch, with_parsed,
}

-- What successive `fgets(line, 512, f)` store: `left` bytes still fit behind `line`.
unfoldable pub file_lines : ℕ → Text → Text → List Text
file_lines left line [] = if is_empty line then [] else line ∷ []
file_lines left line (c ∷ cs) = elim (c == 10 || left == 1) [
  | true ↦ (line ++ (c ∷ [])) ∷ file_lines 511 [] cs
  | false ↦ file_lines (left - 1) (line ++ (c ∷ [])) cs
]

abbrev pub is_blank : ℕ → Bool
is_blank c = c == b' ' || c == 9

unfoldable pub trim_front : Text → Text
trim_front [] = []
trim_front (c ∷ cs) = if is_blank c then trim_front cs else c ∷ cs

unfoldable pub trim_back : Text → Text
trim_back [] = []
trim_back (c ∷ cs) =
    let rest = trim_back cs in
    if is_empty rest && (is_blank c || c == 13 || c == 10) then [] else c ∷ rest

unfoldable pub trim : Text → Text
trim s = trim_back (trim_front s)

-- `strchr(line, '=')`: what stands before it and behind it.
unfoldable pub split_at_eq : Text → Option (Text × Text)
split_at_eq [] = none
split_at_eq (c ∷ cs) =
    let more = split_at_eq cs in
    if c == b'=' then some ([], cs) else map_some (λ p. (c ∷ p.0, p.1)) more

-- A line's key and value; blank lines, comments and lines without `=` have none.
unfoldable pub key_value : Text → Option (Text × Text)
key_value line =
    let s = trim (c_string line) in
    elim s [
      | [] ↦ none
      | c ∷ cs ↦
          if c == b'#' then none else map_some (λ p. (trim p.0, trim p.1)) (split_at_eq (c ∷ cs))
    ]

-- `strtol` reads a minus sign as `strtoul` does, but a number must fit 63 bits.
unfoldable pub is_negative : Text → Bool
is_negative [] = false
is_negative (c ∷ cs) = c == b'-'

unfoldable pub parse_router_port : Text → Option ℕ
parse_router_port value =
    let r = strtoul value in
    if r.overflow
      || ltb (2 ^ 63 - 1) r.value
      || is_negative (skip_space value)
      || not (is_empty r.end)
      || ltb r.value 1
      || ltb 65535 r.value
    then none
    else some r.value

-- The chain of tests behind a key and its value.
unfoldable pub apply_line : Settings → Text → Text → Settings
apply_line cfg key value =
    if str_eq key (codes "lan_list") && not (is_empty value)
    then record cfg { lan = copy_to 128 value }
    else if str_eq key (codes "egress_interface") && not (is_empty value)
    then record cfg { egress = copy_to 128 value }
    else if str_eq key (codes "routing_table") && not (is_empty value)
    then record cfg { table = copy_to 128 value }
    else if str_eq key (codes "target_mode") && not (is_empty value)
    then with_parsed (parse_target_mode value) (λ m. record cfg { target_mode = m }) cfg
    else if str_eq key (codes "target_value") && not (is_empty value)
    then record cfg { target_value = copy_to 128 value }
    else if str_eq key (codes "accuracy_profile") && not (is_empty value)
    then with_parsed (parse_accuracy_profile value) (λ p. record cfg { profile = p }) cfg
    else if str_eq key (codes "router_host") && not (is_empty value)
    then record cfg { host = copy_to 256 value; host_configured = true }
    else if str_eq key (codes "router_port") && not (is_empty value)
    then with_parsed (parse_router_port value)
        (λ p. record cfg { port = p; port_configured = true }) cfg
    else if str_eq key (codes "log_level") && valid_log_level value
    then record cfg { log_level = copy_to 16 value }
    else if str_eq key (codes "diagnostics")
    then with_parsed (parse_switch value) (λ b. record cfg { diagnostics = b }) cfg
    else if str_eq key (codes "diagnostic_max_size_mb")
    then with_parsed (parse_unsigned_range value 1 100) (λ n. record cfg { max_size_mb = n }) cfg
    else if str_eq key (codes "diagnostic_max_files")
    then with_parsed (parse_unsigned_range value 1 10) (λ n. record cfg { max_files = n }) cfg
    else cfg

unfoldable pub load_lines : Settings → List Text → Settings
load_lines cfg [] = cfg
load_lines cfg (line ∷ lines) = elim (key_value line) [
  | none ↦ load_lines cfg lines
  | some kv ↦ load_lines (apply_line cfg kv.0 kv.1) lines
]

-- The settings before the file is read.
abbrev pub defaults : Settings
defaults = record {
  host = [];
  port = 8728;
  lan = codes "LAN";
  egress = [];
  table = [];
  target_mode = interface;
  target_value = [];
  profile = fast;
  log_level = codes "info";
  max_size_mb = 10;
  max_files = 3;
  diagnostics = false;
  host_configured = false;
  port_configured = false;
  selection_configured = false;
}

-- The router's address, when the file has none: the default gateway, or a fixed one.
unfoldable pub with_host : Option Text → Settings → Settings
with_host gateway cfg =
    if is_empty cfg.host
    then record cfg {
      host = (elim gateway [ none ↦ codes "172.31.254.1" | some g ↦ copy_to 256 g ]);
    }
    else cfg

-- Files of older versions have no target: it is inferred.
unfoldable pub with_target : Settings → Settings
with_target cfg =
    let is_table : Bool = elim cfg.target_mode [ interface ↦ false | routing_table ↦ true ] in
    if not (is_empty cfg.target_value)
    then cfg
    else if is_table && not (is_empty cfg.table)
    then record cfg { target_value = copy_to 128 cfg.table }
    else if not (is_empty cfg.egress)
    then record cfg { target_mode = interface; target_value = copy_to 128 cfg.egress }
    else cfg

unfoldable pub with_selection : Settings → Settings
with_selection cfg =
    let is_table : Bool = elim cfg.target_mode [ interface ↦ false | routing_table ↦ true ] in
    record cfg {
      selection_configured = not (is_empty cfg.table) && (is_table || not (is_empty cfg.egress));
    }

-- `config_load_local`: the default gateway that the system shows, and the file's bytes if it opens.
unfoldable pub config_load_local : Option Text → Option Text → Settings
unfolding load_lines with_host with_target with_selection
config_load_local gateway file =
    let read : Settings = elim file [
      | none ↦ defaults
      | some bytes ↦ load_lines defaults (file_lines 511 [] bytes)
    ] in
    with_selection (with_target (with_host gateway read))
