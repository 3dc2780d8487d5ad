-- ===== src/Config/Write/RoundTrip.antt =====
-- About `config_save_target`, `write_nonsecret_config` and `config_load_local` of src/config.c.
use susanin.Prelude.{
  ℕ, ◌≤◌, ◌≡◌, refl, ap, ◌∙◌, true, false, [], ◌∷◌, ◌++◌, Option, some, if◌then◌else◌, ◌⊎◌, inl,
  inr, arith, Bool-cases,
}
use susanin.Prelude.Text.{Text, codes, copy_to, c_string}
use susanin.Prelude.Decimal.{is_empty}
use susanin.Config.Options.{
  TargetMode, interface, routing_table, Settings, valid_log_level, save_target,
}
use susanin.Config.Load.{
  file_lines, trim_front, trim_back, trim, key_value, load_lines, defaults, with_host, with_target,
  with_selection, config_load_local,
}
use susanin.Config.Write.{heading, config_text}
use susanin.Config.Write.Lines.{IsValue}
use susanin.Config.Write.Values.{IsValue-level}
use susanin.Config.Write.Options.{
  read_from, read_lan, read_mode, read_profile, read_level, read_switch, read_size, read_files,
  given_target, given_egress, given_table, given_host, given_port,
}

-- Settings that can be saved: every text that is written is a value that a line can carry, and the
-- numbers are within their ranges.
pub record IsSaved (cfg : Settings) : Type 0 where
  pub lan : IsValue 127 cfg.lan
  pub target : (cfg.target_value ≡ []) ⊎ IsValue 127 cfg.target_value
  pub egress : (cfg.egress ≡ []) ⊎ IsValue 127 cfg.egress
  pub table : (cfg.table ≡ []) ⊎ IsValue 127 cfg.table
  pub host : cfg.host_configured ≡ true → IsValue 255 cfg.host
  pub level : valid_log_level cfg.log_level ≡ true
  pub port : (1 ≤ cfg.port) × (cfg.port ≤ 65535)
  pub size : (1 ≤ cfg.max_size_mb) × (cfg.max_size_mb ≤ 100)
  pub files : (1 ≤ cfg.max_files) × (cfg.max_files ≤ 10)

-- What is not in the file has its default.
abbrev pub kept : Settings → Settings
kept cfg = record cfg {
  host = if cfg.host_configured then cfg.host else [];
  port = if cfg.port_configured then cfg.port else 8728;
  selection_configured = false;
}

read_heading : (cfg : Settings) (rest : Text) → read_from cfg (heading ++ rest) ≡ read_from cfg rest
unfolding heading file_lines load_lines key_value trim trim_front trim_back c_string codes
read_heading cfg rest = refl

read_end : (cfg : Settings) → read_from cfg [] ≡ cfg
unfolding file_lines load_lines
read_end cfg = refl

-- Reading the written file from the defaults gives the settings back.
read_config_text : (cfg : Settings) → IsSaved cfg → read_from defaults (config_text cfg) ≡ kept cfg
unfolding config_text
read_config_text cfg s =
    read_heading _ _
    ∙ read_lan _ _ cfg.lan s.lan
    ∙ read_mode _ _ cfg.target_mode
    ∙ given_target _ _ cfg.target_value s.target refl
    ∙ given_egress _ _ cfg.egress s.egress refl
    ∙ given_table _ _ cfg.table s.table refl
    ∙ read_profile _ _ cfg.profile
    ∙ given_host _ _ cfg.host_configured cfg.host s.host refl refl
    ∙ given_port _ _ cfg.port_configured cfg.port s.port.0 s.port.1 refl
    ∙ read_level _ _ cfg.log_level (IsValue-level cfg.log_level s.level) s.level
    ∙ read_switch _ _ cfg.diagnostics
    ∙ read_size _ _ cfg.max_size_mb s.size.0 s.size.1
    ∙ read_files _ _ cfg.max_files s.files.0 s.files.1
    ∙ read_end _

-- A target as `config_save_target` leaves it in the settings.
record Selected (cfg : Settings) : Type 0 where
  target_given : is_empty cfg.target_value ≡ false
  table_given : is_empty cfg.table ≡ false
  usable : (cfg.target_mode ≡ routing_table) ⊎ (is_empty cfg.egress ≡ false)
  ready : cfg.selection_configured ≡ true

copy_given : (v : Text) → is_empty v ≡ false → is_empty (copy_to 128 v) ≡ false
copy_given [] h = cc
copy_given (c ∷ cs) h = refl

save_target-Selected :
    (cfg cfg' : Settings) (mode : TargetMode) (value egress table : Text)
    → save_target cfg mode value egress table ≡ some cfg'
    → Selected cfg'
unfolding save_target
save_target-Selected cfg cfg' interface value egress table h =
    ground (arith, copy_given value, copy_given egress, copy_given table)
save_target-Selected cfg cfg' routing_table value egress table h =
    ground (arith, copy_given value, copy_given table)

-- The inference of the target and the selection leave a selected target alone.
with_selection-with_target :
    (cfg : Settings) (host : Text) (port : ℕ)
    → Selected cfg
    → with_selection
        (with_target (record cfg { host = host; port = port; selection_configured = false }))
      ≡ record cfg { host = host; port = port; selection_configured = true }
unfolding with_selection with_target
with_selection-with_target cfg host port s = rw (s.target_given) (
    ap (λ b. record cfg { host = host; port = port; selection_configured = b })
      (ground (arith, s.usable)))

finish_load :
    (gateway : Option Text) (cfg : Settings)
    → Selected cfg
    → with_selection (with_target (with_host gateway (kept cfg)))
      ≡ with_host gateway (record (kept cfg) { selection_configured = true })
unfolding with_host
finish_load gateway cfg s = elim (Bool-cases (is_empty (kept cfg).host)) [
  | inl e ↦ rw (e, with_host) (with_selection-with_target cfg _ _ s)
  | inr e ↦ rw (e, with_host) (with_selection-with_target cfg _ _ s)
]

-- A target that `config_save_target` accepts and writes is the target that the next start loads, with
-- every other setting: what stands in the file is read back exactly, the host is the file's or else the
-- default gateway's, and the selection counts as configured. The texts must be values that a line can
-- carry.
pub save_target-config_load_local :
    (gateway : Option Text) (cfg cfg' : Settings) (mode : TargetMode) (value egress table : Text)
    → save_target cfg mode value egress table ≡ some cfg'
    → IsSaved cfg'
    → config_load_local gateway (some (config_text cfg'))
      ≡ with_host gateway (record (kept cfg') { selection_configured = true })
unfolding config_load_local
save_target-config_load_local gateway cfg cfg' mode value egress table h s =
    rw (read_config_text cfg' s)
      (finish_load gateway cfg' (save_target-Selected cfg cfg' mode value egress table h))
