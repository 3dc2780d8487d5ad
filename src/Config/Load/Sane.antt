-- ===== src/Config/Load/Sane.antt =====
-- About `config_load_local` of src/config.c: the bounds of what it loads.
use susanin.Prelude.{
  ℕ, ◌≤◌, ◌≡◌, refl, Bool, true, false, not, ◌&&◌, List, [], ◌∷◌, Option, none, some, inl, inr,
  Option-cases, arith, if◌then◌else◌,
}
use susanin.Prelude.{length-take}
use susanin.Prelude.Text.{Text, codes, str_eq, copy_to}
use susanin.Prelude.Decimal.{is_empty}
use susanin.Config.Options.{
  TargetMode, interface, routing_table, Settings, valid_log_level, log_levels, parse_target_mode,
  parse_accuracy_profile, parse_unsigned_range, parse_switch, with_parsed,
}
use susanin.Config.Options.Sane.{IsSane, level_kept, range_in}
use susanin.Config.Load.{
  file_lines, key_value, parse_router_port, apply_line, load_lines, defaults, with_host,
  with_target, with_selection, config_load_local,
}

-- Both branches of a test keep the bounds.
if_keeps :
    (c : Bool) {a b : Settings} → (c ≡ true → IsSane a) → IsSane b → IsSane (if c then a else b)
if_keeps true p q = p refl
if_keeps false p q = q

parsed_keeps :
    {A : Type 0} (o : Option A) (set : A → Settings) (cfg : Settings)
    → ((a : A) → o ≡ some a → IsSane (set a))
    → IsSane cfg
    → IsSane (with_parsed o set cfg)
parsed_keeps none set cfg p i = i
parsed_keeps (some a) set cfg p i = p a refl

port_in_range : (value : Text) (p : ℕ) → parse_router_port value ≡ some p → (1 ≤ p) × (p ≤ 65535)
unfolding parse_router_port
port_in_range value p h = ground arith

module _ (cfg : Settings) (i : IsSane cfg) where
  lan_keeps : (v : Text) → IsSane (record cfg { lan = copy_to 128 v })
  lan_keeps v = ground (arith, length-take 127 v)

  egress_keeps : (v : Text) → IsSane (record cfg { egress = copy_to 128 v })
  egress_keeps v = ground (arith, length-take 127 v)

  table_keeps : (v : Text) → IsSane (record cfg { table = copy_to 128 v })
  table_keeps v = ground (arith, length-take 127 v)

  target_keeps :
      (m : TargetMode) (v : Text)
      → IsSane (record cfg { target_mode = m; target_value = copy_to 128 v })
  target_keeps m v = ground (arith, length-take 127 v)

  host_keeps : (v : Text) → IsSane (record cfg { host = copy_to 256 v; host_configured = true })
  host_keeps v = ground (arith, length-take 255 v)

  level_keeps :
      (v : Text) → valid_log_level v ≡ true → IsSane (record cfg { log_level = copy_to 16 v })
  level_keeps v h = ground (arith, level_kept v)

  mode_keeps :
      (v : Text)
      → IsSane (with_parsed (parse_target_mode v) (λ m. record cfg { target_mode = m }) cfg)
  mode_keeps v =
      parsed_keeps (parse_target_mode v) (λ m. record cfg { target_mode = m }) cfg
        (λ m h. ground arith) i

  profile_keeps :
      (v : Text)
      → IsSane (with_parsed (parse_accuracy_profile v) (λ p. record cfg { profile = p }) cfg)
  profile_keeps v =
      parsed_keeps (parse_accuracy_profile v) (λ p. record cfg { profile = p }) cfg
        (λ p h. ground arith) i

  port_keeps :
      (v : Text)
      → IsSane (
          with_parsed
            (parse_router_port v)
            (λ p. record cfg { port = p; port_configured = true })
            cfg)
  port_keeps v =
      parsed_keeps (parse_router_port v) (λ p. record cfg { port = p; port_configured = true }) cfg
        (λ p h. ground (arith, port_in_range v p h)) i

  switch_keeps :
      (v : Text) → IsSane (with_parsed (parse_switch v) (λ b. record cfg { diagnostics = b }) cfg)
  switch_keeps v =
      parsed_keeps (parse_switch v) (λ b. record cfg { diagnostics = b }) cfg (λ b h. ground arith)
        i

  size_keeps :
      (v : Text)
      → IsSane
          (with_parsed (parse_unsigned_range v 1 100) (λ n. record cfg { max_size_mb = n }) cfg)
  size_keeps v =
      parsed_keeps (parse_unsigned_range v 1 100) (λ n. record cfg { max_size_mb = n }) cfg
        (λ n h. ground (arith, range_in v 1 100 n h)) i

  files_keeps :
      (v : Text)
      → IsSane (with_parsed (parse_unsigned_range v 1 10) (λ n. record cfg { max_files = n }) cfg)
  files_keeps v =
      parsed_keeps (parse_unsigned_range v 1 10) (λ n. record cfg { max_files = n }) cfg
        (λ n h. ground (arith, range_in v 1 10 n h)) i

  -- Each test of the chain in turn.
  apply_line-IsSane : (key value : Text) → IsSane (apply_line cfg key value)
  unfolding apply_line
  apply_line-IsSane key value =
      let given = not (is_empty value) in
      if_keeps (str_eq key (codes "lan_list") && given) (λ e. lan_keeps value)
        (if_keeps (str_eq key (codes "egress_interface") && given) (λ e. egress_keeps value)
          (if_keeps (str_eq key (codes "routing_table") && given) (λ e. table_keeps value)
            (if_keeps (str_eq key (codes "target_mode") && given) (λ e. mode_keeps value)
              (if_keeps (str_eq key (codes "target_value") && given)
                (λ e. target_keeps cfg.target_mode value)
                (if_keeps (str_eq key (codes "accuracy_profile") && given)
                  (λ e. profile_keeps value)
                  (if_keeps (str_eq key (codes "router_host") && given) (λ e. host_keeps value)
                    (if_keeps (str_eq key (codes "router_port") && given) (λ e. port_keeps value)
                      (if_keeps (str_eq key (codes "log_level") && valid_log_level value)
                        (λ e. level_keeps value (ground arith))
                        (if_keeps (str_eq key (codes "diagnostics")) (λ e. switch_keeps value)
                          (if_keeps (str_eq key (codes "diagnostic_max_size_mb"))
                            (λ e. size_keeps value)
                            (if_keeps (str_eq key (codes "diagnostic_max_files"))
                              (λ e. files_keeps value) (i))))))))))))

load_lines-IsSane :
    (cfg : Settings) (lines : List Text) → IsSane cfg → IsSane (load_lines cfg lines)
unfolding load_lines
load_lines-IsSane cfg [] i = i
load_lines-IsSane cfg (line ∷ lines) i = elim (Option-cases (key_value line)) [
  | inl e ↦ rw (e, load_lines) (load_lines-IsSane cfg lines i)
  | inr (kv, e) ↦
      rw (e, load_lines)
        (load_lines-IsSane (apply_line cfg kv.0 kv.1) lines (apply_line-IsSane cfg i kv.0 kv.1))
]

defaults-IsSane : IsSane defaults
unfolding valid_log_level log_levels codes str_eq
defaults-IsSane = record {
  host_fits = omega arith;
  lan_fits = omega arith;
  egress_fits = omega arith;
  table_fits = omega arith;
  target_fits = omega arith;
  level_known = refl;
  port_in = (omega arith, omega arith);
  size_in = (omega arith, omega arith);
  files_in = (omega arith, omega arith);
}

with_host-IsSane :
    (gateway : Option Text) (cfg : Settings) → IsSane cfg → IsSane (with_host gateway cfg)
unfolding with_host codes
with_host-IsSane none cfg i = ground arith
with_host-IsSane (some g) cfg i = ground (arith, length-take 255 g)

with_target-IsSane : (cfg : Settings) → IsSane cfg → IsSane (with_target cfg)
unfolding with_target
with_target-IsSane cfg i =
    let is_table : Bool = elim cfg.target_mode [ interface ↦ false | routing_table ↦ true ] in
    if_keeps (not (is_empty cfg.target_value)) (λ e. i)
      (if_keeps (is_table && not (is_empty cfg.table))
        (λ e. target_keeps cfg i cfg.target_mode cfg.table)
        (if_keeps (not (is_empty cfg.egress)) (λ e. target_keeps cfg i interface cfg.egress) i))

with_selection-IsSane : (cfg : Settings) → IsSane cfg → IsSane (with_selection cfg)
unfolding with_selection
with_selection-IsSane cfg i = ground arith

-- Whatever the file and the default gateway are, the loaded settings are within their bounds: every
-- text fits its buffer, the port is one of 1 to 65535, the log level is one of the five, and the
-- diagnostic limits are within 1 to 100 and 1 to 10.
pub config_load_local-IsSane :
    (gateway file : Option Text) → IsSane (config_load_local gateway file)
unfolding config_load_local
config_load_local-IsSane gateway none =
    with_selection-IsSane _
      (with_target-IsSane _ (with_host-IsSane gateway defaults defaults-IsSane))
config_load_local-IsSane gateway (some bytes) = with_selection-IsSane _ (
    with_target-IsSane _ (
      with_host-IsSane gateway _
        (load_lines-IsSane defaults (file_lines 511 [] bytes) defaults-IsSane)))
