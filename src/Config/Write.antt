-- ===== src/Config/Write.antt =====
-- `write_nonsecret_config`, src/config.c: the bytes that it writes.
pub mod Lines
pub mod Values
pub mod Options
pub mod RoundTrip
use susanin.Prelude.{ℕ, Bool, true, false, not, ◌&&◌, List, [], ◌∷◌, ◌++◌, if◌then◌else◌}
use susanin.Prelude.Text.{Text, codes}
use susanin.Prelude.Decimal.{decimal, is_empty}
use susanin.Config.Options.{Settings, target_mode_name, accuracy_profile_name}

-- `fprintf(f, "<key>=%s\n", value)`
unfoldable pub option_line : Text → Text → Text
option_line key value = key ++ (b'=' ∷ (value ++ (10 ∷ [])))

-- An option that is written only when it is given.
unfoldable pub given_line : Bool → Text → Text → Text
given_line false key value = []
given_line true key value = option_line key value

unfoldable pub switch_name : Bool → Text
switch_name true = codes "on"
switch_name false = codes "off"

unfoldable pub heading : Text
heading = codes "# Susanin non-secret runtime configuration" ++ (10 ∷ [])

unfoldable pub config_text : Settings → Text
config_text cfg =
    heading
    ++ (option_line (codes "lan_list") cfg.lan
        ++ (option_line (codes "target_mode") (target_mode_name cfg.target_mode)
            ++ (given_line (not (is_empty cfg.target_value)) (codes "target_value") cfg.target_value
                ++ (given_line (not (is_empty cfg.egress)) (codes "egress_interface") cfg.egress
                    ++ (given_line (not (is_empty cfg.table)) (codes "routing_table") cfg.table
                        ++ (option_line (codes "accuracy_profile")
                              (accuracy_profile_name cfg.profile)
                            ++ (given_line (cfg.host_configured && not (is_empty cfg.host))
                                  (codes "router_host") cfg.host
                                ++ (given_line cfg.port_configured (codes "router_port")
                                      (decimal cfg.port)
                                    ++ (option_line (codes "log_level") cfg.log_level
                                        ++ (option_line (codes "diagnostics")
                                              (switch_name cfg.diagnostics)
                                            ++ (option_line (codes "diagnostic_max_size_mb")
                                                  (decimal cfg.max_size_mb)
                                                ++ (option_line (codes "diagnostic_max_files")
                                                      (decimal cfg.max_files)
                                                    ++ []))))))))))))
