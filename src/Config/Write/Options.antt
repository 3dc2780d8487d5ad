-- ===== src/Config/Write/Options.antt =====
-- About each option that `write_nonsecret_config` of src/config.c writes, when it is read.
use susanin.Prelude.{
  ℕ, ◌≤◌, ◌≡◌, refl, ap, ◌∙◌, Bool, true, false, not, ◌&&◌, [], ◌++◌, if◌then◌else◌,
}
use susanin.Prelude.{take-all, arith, inl, inr, ◌⊎◌}
use susanin.Prelude.Text.{Text, codes, str_eq}
use susanin.Prelude.Decimal.{decimal, is_empty}
use susanin.Prelude.Decimal.RoundTrip.{decimal-ne-empty}
use susanin.Config.Options.{
  TargetMode, interface, routing_table, Profile, fast, middle, slow, Settings, target_mode_name,
  accuracy_profile_name, parse_target_mode, parse_accuracy_profile, parse_switch, valid_log_level,
}
use susanin.Config.Options.Sane.{level_short}
use susanin.Config.Load.{file_lines, apply_line, load_lines}
use susanin.Config.Write.{option_line, given_line, switch_name}
use susanin.Config.Write.Lines.{IsValue, IsKey, IsKey-all, load_lines-option_line}
use susanin.Config.Write.Values.{
  IsValue-decimal, IsValue-mode, IsValue-profile, IsValue-switch, parse_router_port-decimal,
  parse_unsigned_range-decimal,
}

lan-IsKey : IsKey (codes "lan_list")
unfolding codes
lan-IsKey = IsKey-all (codes "lan_list") refl refl refl

mode-IsKey : IsKey (codes "target_mode")
unfolding codes
mode-IsKey = IsKey-all (codes "target_mode") refl refl refl

target-IsKey : IsKey (codes "target_value")
unfolding codes
target-IsKey = IsKey-all (codes "target_value") refl refl refl

egress-IsKey : IsKey (codes "egress_interface")
unfolding codes
egress-IsKey = IsKey-all (codes "egress_interface") refl refl refl

table-IsKey : IsKey (codes "routing_table")
unfolding codes
table-IsKey = IsKey-all (codes "routing_table") refl refl refl

profile-IsKey : IsKey (codes "accuracy_profile")
unfolding codes
profile-IsKey = IsKey-all (codes "accuracy_profile") refl refl refl

host-IsKey : IsKey (codes "router_host")
unfolding codes
host-IsKey = IsKey-all (codes "router_host") refl refl refl

port-IsKey : IsKey (codes "router_port")
unfolding codes
port-IsKey = IsKey-all (codes "router_port") refl refl refl

level-IsKey : IsKey (codes "log_level")
unfolding codes
level-IsKey = IsKey-all (codes "log_level") refl refl refl

switch-IsKey : IsKey (codes "diagnostics")
unfolding codes
switch-IsKey = IsKey-all (codes "diagnostics") refl refl refl

size-IsKey : IsKey (codes "diagnostic_max_size_mb")
unfolding codes
size-IsKey = IsKey-all (codes "diagnostic_max_size_mb") refl refl refl

files-IsKey : IsKey (codes "diagnostic_max_files")
unfolding codes
files-IsKey = IsKey-all (codes "diagnostic_max_files") refl refl refl

abbrev pub read_from : Settings → Text → Settings
read_from cfg text = load_lines cfg (file_lines 511 [] text)

module _ (cfg : Settings) (rest : Text) where
  pub read_lan :
      (v : Text)
      → IsValue 127 v
      → read_from cfg (option_line (codes "lan_list") v ++ rest)
        ≡ read_from (record cfg { lan = v }) rest
  unfolding apply_line codes str_eq
  read_lan v i =
      load_lines-option_line cfg (codes "lan_list") v rest lan-IsKey i (omega arith)
      ∙ rw (i.given) (rw (take-all 127 v i.fits) refl)

  read_target :
      (v : Text)
      → IsValue 127 v
      → read_from cfg (option_line (codes "target_value") v ++ rest)
        ≡ read_from (record cfg { target_value = v }) rest
  unfolding apply_line codes str_eq
  read_target v i =
      load_lines-option_line cfg (codes "target_value") v rest target-IsKey i (omega arith)
      ∙ rw (i.given) (rw (take-all 127 v i.fits) refl)

  read_egress :
      (v : Text)
      → IsValue 127 v
      → read_from cfg (option_line (codes "egress_interface") v ++ rest)
        ≡ read_from (record cfg { egress = v }) rest
  unfolding apply_line codes str_eq
  read_egress v i =
      load_lines-option_line cfg (codes "egress_interface") v rest egress-IsKey i (omega arith)
      ∙ rw (i.given) (rw (take-all 127 v i.fits) refl)

  read_table :
      (v : Text)
      → IsValue 127 v
      → read_from cfg (option_line (codes "routing_table") v ++ rest)
        ≡ read_from (record cfg { table = v }) rest
  unfolding apply_line codes str_eq
  read_table v i =
      load_lines-option_line cfg (codes "routing_table") v rest table-IsKey i (omega arith)
      ∙ rw (i.given) (rw (take-all 127 v i.fits) refl)

  read_host :
      (v : Text)
      → IsValue 255 v
      → read_from cfg (option_line (codes "router_host") v ++ rest)
        ≡ read_from (record cfg { host = v; host_configured = true }) rest
  unfolding apply_line codes str_eq
  read_host v i =
      load_lines-option_line cfg (codes "router_host") v rest host-IsKey i (omega arith)
      ∙ rw (i.given) (rw (take-all 255 v i.fits) refl)

  pub read_level :
      (v : Text)
      → IsValue 127 v
      → valid_log_level v ≡ true
      → read_from cfg (option_line (codes "log_level") v ++ rest)
        ≡ read_from (record cfg { log_level = v }) rest
  unfolding apply_line codes str_eq
  read_level v i known =
      load_lines-option_line cfg (codes "log_level") v rest level-IsKey i (omega arith)
      ∙ rw (known) (rw (take-all 15 v (level_short v known)) refl)

  pub read_mode :
      (m : TargetMode)
      → read_from cfg (option_line (codes "target_mode") (target_mode_name m) ++ rest)
        ≡ read_from (record cfg { target_mode = m }) rest
  unfolding apply_line codes str_eq target_mode_name parse_target_mode
  read_mode interface =
      load_lines-option_line cfg (codes "target_mode") (target_mode_name interface) rest mode-IsKey
        (IsValue-mode interface) (omega arith)
  read_mode routing_table =
      load_lines-option_line cfg (codes "target_mode") (target_mode_name routing_table) rest
        mode-IsKey (IsValue-mode routing_table) (omega arith)

  pub read_profile :
      (p : Profile)
      → read_from cfg (option_line (codes "accuracy_profile") (accuracy_profile_name p) ++ rest)
        ≡ read_from (record cfg { profile = p }) rest
  unfolding apply_line codes str_eq accuracy_profile_name parse_accuracy_profile
  read_profile fast =
      load_lines-option_line cfg (codes "accuracy_profile") (accuracy_profile_name fast) rest
        profile-IsKey (IsValue-profile fast) (omega arith)
  read_profile middle =
      load_lines-option_line cfg (codes "accuracy_profile") (accuracy_profile_name middle) rest
        profile-IsKey (IsValue-profile middle) (omega arith)
  read_profile slow =
      load_lines-option_line cfg (codes "accuracy_profile") (accuracy_profile_name slow) rest
        profile-IsKey (IsValue-profile slow) (omega arith)

  pub read_switch :
      (b : Bool)
      → read_from cfg (option_line (codes "diagnostics") (switch_name b) ++ rest)
        ≡ read_from (record cfg { diagnostics = b }) rest
  unfolding apply_line codes str_eq switch_name parse_switch
  read_switch true =
      load_lines-option_line cfg (codes "diagnostics") (switch_name true) rest switch-IsKey
        (IsValue-switch true) (omega arith)
  read_switch false =
      load_lines-option_line cfg (codes "diagnostics") (switch_name false) rest switch-IsKey
        (IsValue-switch false) (omega arith)

  read_port :
      (p : ℕ)
      → 1 ≤ p
      → p ≤ 65535
      → read_from cfg (option_line (codes "router_port") (decimal p) ++ rest)
        ≡ read_from (record cfg { port = p; port_configured = true }) rest
  unfolding apply_line codes str_eq
  read_port p low high =
      load_lines-option_line cfg (codes "router_port") (decimal p) rest port-IsKey
        (IsValue-decimal p (omega (arith, high))) (omega arith)
      ∙ rw (decimal-ne-empty p) (rw (parse_router_port-decimal p low high) refl)

  pub read_size :
      (n : ℕ)
      → 1 ≤ n
      → n ≤ 100
      → read_from cfg (option_line (codes "diagnostic_max_size_mb") (decimal n) ++ rest)
        ≡ read_from (record cfg { max_size_mb = n }) rest
  unfolding apply_line codes str_eq
  read_size n low high =
      load_lines-option_line cfg (codes "diagnostic_max_size_mb") (decimal n) rest size-IsKey
        (IsValue-decimal n (omega (arith, high))) (omega arith)
      ∙ rw (parse_unsigned_range-decimal n 1 100 low high (omega arith)) refl

  pub read_files :
      (n : ℕ)
      → 1 ≤ n
      → n ≤ 10
      → read_from cfg (option_line (codes "diagnostic_max_files") (decimal n) ++ rest)
        ≡ read_from (record cfg { max_files = n }) rest
  unfolding apply_line codes str_eq
  read_files n low high =
      load_lines-option_line cfg (codes "diagnostic_max_files") (decimal n) rest files-IsKey
        (IsValue-decimal n (omega (arith, high))) (omega arith)
      ∙ rw (parse_unsigned_range-decimal n 1 10 low high (omega arith)) refl

  -- An absent value stays absent.
  pub given_target :
      (v : Text)
      → (v ≡ []) ⊎ IsValue 127 v
      → cfg.target_value ≡ []
      → read_from cfg (given_line (not (is_empty v)) (codes "target_value") v ++ rest)
        ≡ read_from (record cfg { target_value = v }) rest
  unfolding given_line
  given_target v (inl e) h = rw e (ap (λ t. read_from (record cfg { target_value = t }) rest) h)
  given_target v (inr i) h = rw (i.given) (read_target v i)

  -- An absent value stays absent.
  pub given_egress :
      (v : Text)
      → (v ≡ []) ⊎ IsValue 127 v
      → cfg.egress ≡ []
      → read_from cfg (given_line (not (is_empty v)) (codes "egress_interface") v ++ rest)
        ≡ read_from (record cfg { egress = v }) rest
  unfolding given_line
  given_egress v (inl e) h = rw e (ap (λ t. read_from (record cfg { egress = t }) rest) h)
  given_egress v (inr i) h = rw (i.given) (read_egress v i)

  -- An absent value stays absent.
  pub given_table :
      (v : Text)
      → (v ≡ []) ⊎ IsValue 127 v
      → cfg.table ≡ []
      → read_from cfg (given_line (not (is_empty v)) (codes "routing_table") v ++ rest)
        ≡ read_from (record cfg { table = v }) rest
  unfolding given_line
  given_table v (inl e) h = rw e (ap (λ t. read_from (record cfg { table = t }) rest) h)
  given_table v (inr i) h = rw (i.given) (read_table v i)

  pub given_host :
      (b : Bool) (v : Text)
      → (b ≡ true → IsValue 255 v)
      → cfg.host ≡ []
      → cfg.host_configured ≡ false
      → read_from cfg (given_line (b && not (is_empty v)) (codes "router_host") v ++ rest)
        ≡ read_from (record cfg { host = if b then v else []; host_configured = b }) rest
  unfolding given_line
  given_host true v i h c = rw ((i refl).given) (read_host v (i refl))
  given_host false v i h c =
      ap (λ t. read_from (record cfg { host = t; host_configured = cfg.host_configured }) rest) h
      ∙ ap (λ t. read_from (record cfg { host = []; host_configured = t }) rest) c

  pub given_port :
      (b : Bool) (p : ℕ)
      → 1 ≤ p
      → p ≤ 65535
      → cfg.port_configured ≡ false
      → read_from cfg (given_line b (codes "router_port") (decimal p) ++ rest)
        ≡ read_from (record cfg { port = if b then p else cfg.port; port_configured = b }) rest
  unfolding given_line
  given_port true p low high c = read_port p low high
  given_port false p low high c = ap (λ t. read_from (record cfg { port_configured = t }) rest) c
