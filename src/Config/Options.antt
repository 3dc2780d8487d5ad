-- ===== src/Config/Options.antt =====
-- The options of src/config.c: names, tests and `config_set_option`.
pub mod Sane
use susanin.Prelude.{
  ℕ, Bool, true, false, not, ◌&&◌, ◌||◌, List, [], ◌∷◌, ◌++◌, Option, none, some, ltb, any,
  if◌then◌else◌, map_some,
}
use susanin.Prelude.Text.{Text, codes, str_eq, copy_to}
use susanin.Prelude.Decimal.{strtoul, Strtoul, is_empty}

-- `susanin_target_mode_t`
pub data TargetMode : Type 0 where
  interface : TargetMode
  routing_table : TargetMode

-- `susanin_accuracy_profile_t`
pub data Profile : Type 0 where
  fast : Profile
  middle : Profile
  slow : Profile

-- `app_config_t` without the secret and the pointers, which stand for the buffers when these are not
-- empty.
pub record Settings : Type 0 where
  pub host : Text
  pub port : ℕ
  pub lan : Text
  pub egress : Text
  pub table : Text
  pub target_mode : TargetMode
  pub target_value : Text
  pub profile : Profile
  pub log_level : Text
  pub max_size_mb : ℕ
  pub max_files : ℕ
  pub diagnostics : Bool
  pub host_configured : Bool
  pub port_configured : Bool
  pub selection_configured : Bool

unfoldable pub log_levels : List Text
log_levels = codes "quiet" ∷ codes "error" ∷ codes "info" ∷ codes "debug" ∷ codes "trace" ∷ []

unfoldable pub valid_log_level : Text → Bool
valid_log_level value = any (str_eq value) log_levels

unfoldable pub target_mode_name : TargetMode → Text
target_mode_name interface = codes "interface"
target_mode_name routing_table = codes "routing-table"

unfoldable pub parse_target_mode : Text → Option TargetMode
parse_target_mode value =
    if str_eq value (codes "interface")
    then some interface
    else if str_eq value (codes "routing-table") || str_eq value (codes "table")
    then some routing_table
    else none

unfoldable pub accuracy_profile_name : Profile → Text
accuracy_profile_name fast = codes "fast"
accuracy_profile_name middle = codes "middle"
accuracy_profile_name slow = codes "slow"

unfoldable pub parse_accuracy_profile : Text → Option Profile
parse_accuracy_profile value =
    if str_eq value (codes "fast")
    then some fast
    else if str_eq value (codes "middle") || str_eq value (codes "mid")
    then some middle
    else if str_eq value (codes "slow")
    then some slow
    else none

unfoldable pub parse_unsigned_range : Text → ℕ → ℕ → Option ℕ
parse_unsigned_range value min max =
    let r = strtoul value in
    if is_empty value || r.overflow || not (is_empty r.end) || ltb r.value min || ltb max r.value
    then none
    else some r.value

-- `on` and `off`.
unfoldable pub parse_switch : Text → Option Bool
parse_switch value =
    if str_eq value (codes "on")
    then some true
    else if str_eq value (codes "off")
    then some false
    else none

-- A value that did not parse changes nothing.
abbrev pub with_parsed : {A : Type 0} → Option A → (A → Settings) → Settings → Settings
with_parsed none set cfg = cfg
with_parsed (some a) set cfg = set a

-- The settings that `config_set_option` writes, or `none` for an unknown key or a bad value.
unfoldable pub set_option : Settings → Text → Text → Option Settings
set_option cfg key value =
    if str_eq key (codes "log-level")
    then (if valid_log_level value
        then some (record cfg { log_level = copy_to 16 value })
        else none)
    else if str_eq key (codes "accuracy-profile") || str_eq key (codes "accuracy")
    then map_some (λ p. record cfg { profile = p }) (parse_accuracy_profile value)
    else if str_eq key (codes "diagnostics")
    then map_some (λ b. record cfg { diagnostics = b }) (parse_switch value)
    else if str_eq key (codes "diagnostic-max-size-mb")
    then map_some (λ n. record cfg { max_size_mb = n }) (parse_unsigned_range value 1 100)
    else if str_eq key (codes "diagnostic-max-files")
    then map_some (λ n. record cfg { max_files = n }) (parse_unsigned_range value 1 10)
    else none

-- `config_save_target`, up to the write: an interface target needs its resolved interface, and every
-- target its value and table. An absent text is empty.
unfoldable pub save_target : Settings → TargetMode → Text → Text → Text → Option Settings
save_target cfg mode target_value resolved_egress resolved_table =
    let needs_egress : Bool = elim mode [ interface ↦ true | routing_table ↦ false ] in
    if is_empty target_value || is_empty resolved_table || needs_egress && is_empty resolved_egress
    then none
    else some (record cfg {
      target_mode = mode;
      target_value = copy_to 128 target_value;
      egress = copy_to 128 resolved_egress;
      table = copy_to 128 resolved_table;
      selection_configured = not needs_egress || not (is_empty (copy_to 128 resolved_egress));
    })
