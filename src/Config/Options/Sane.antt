-- ===== src/Config/Options/Sane.antt =====
-- About `config_set_option` of src/config.c: the bounds of the settings.
use susanin.Prelude.{ℕ, ◌≤◌, ◌≡◌, true, some, arith}
use susanin.Prelude.{length, take-all}
use susanin.Prelude.Text.{Text, codes, str_eq, str_eq_iff, copy_to}
use susanin.Config.Options.{Settings, valid_log_level, log_levels, parse_unsigned_range, set_option}

-- Every text fits its buffer with its terminator, and every number its range; the log level is one of
-- the five.
pub record IsSane (cfg : Settings) : Type 0 where
  pub host_fits : length cfg.host ≤ 255
  pub lan_fits : length cfg.lan ≤ 127
  pub egress_fits : length cfg.egress ≤ 127
  pub table_fits : length cfg.table ≤ 127
  pub target_fits : length cfg.target_value ≤ 127
  pub level_known : valid_log_level cfg.log_level ≡ true
  pub port_in : (1 ≤ cfg.port) × (cfg.port ≤ 65535)
  pub size_in : (1 ≤ cfg.max_size_mb) × (cfg.max_size_mb ≤ 100)
  pub files_in : (1 ≤ cfg.max_files) × (cfg.max_files ≤ 10)

same_length : (value name : Text) → length name ≤ 15 → str_eq value name ≡ true → length value ≤ 15
same_length value name h e = rw ((str_eq_iff value name).0 e) h

pub level_short : (value : Text) → valid_log_level value ≡ true → length value ≤ 15
unfolding valid_log_level log_levels codes
level_short value h = ground (
  arith,
  same_length value (codes "quiet") (omega arith),
  same_length value (codes "error") (omega arith),
  same_length value (codes "info") (omega arith),
  same_length value (codes "debug") (omega arith),
  same_length value (codes "trace") (omega arith),
)

pub range_in :
    (value : Text) (min max n : ℕ)
    → parse_unsigned_range value min max ≡ some n
    → (min ≤ n) × (n ≤ max)
unfolding parse_unsigned_range
range_in value min max n h = ground arith

pub level_kept :
    (value : Text) → valid_log_level value ≡ true → valid_log_level (copy_to 16 value) ≡ true
level_kept value h = rw (take-all 15 value (level_short value h)) h

-- An option that is set leaves the settings within their bounds.
pub set_option-IsSane :
    (cfg cfg' : Settings) (key value : Text)
    → IsSane cfg
    → set_option cfg key value ≡ some cfg'
    → IsSane cfg'
unfolding set_option
set_option-IsSane cfg cfg' key value i h = ground (
  arith,
  level_kept value,
  range_in value 1 100 cfg'.max_size_mb,
  range_in value 1 10 cfg'.max_files,
)
