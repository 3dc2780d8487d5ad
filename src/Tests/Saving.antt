-- ===== src/Tests/Saving.antt =====
-- The theorems about src/config.c, applied.
use susanin.Prelude.{◌≡◌, refl, true, [], ◌∷◌, ◌++◌, none, some, arith, inr}
use susanin.Prelude.Text.{Text, codes, str_eq}
use susanin.Config.Options.{interface, Settings, save_target, valid_log_level, log_levels}
use susanin.Config.Options.Sane.{IsSane}
use susanin.Config.Load.{defaults, with_host, config_load_local, trim_front, trim_back}
use susanin.Config.Load.Sane.{config_load_local-IsSane}
use susanin.Config.Write.{config_text}
use susanin.Config.Write.Lines.{IsValue}
use susanin.Config.Write.Values.{fixed-IsValue}
use susanin.Config.Write.RoundTrip.{IsSaved, kept, save_target-config_load_local}

-- A file with a level that is not known, a port out of range, and a target.
abbrev file : Text
file =
    codes "log_level=loud"
    ++ (10 ∷ (codes "router_port = 70000" ++ (10 ∷ (codes "routing_table=vpn" ++ (10 ∷ [])))))

config_load_local-IsSane_example : IsSane (config_load_local none (some file))
config_load_local-IsSane_example = config_load_local-IsSane none (some file)

abbrev tunnel : Text
tunnel = codes "wg0"

abbrev saved : Settings
saved = record defaults {
  target_mode = interface;
  target_value = tunnel;
  egress = tunnel;
  table = codes "vpn";
  selection_configured = true;
}

saved-set : save_target defaults interface tunnel tunnel (codes "vpn") ≡ some saved
unfolding save_target codes
saved-set = refl

tunnel-IsValue : IsValue 127 tunnel
unfolding codes trim_front trim_back
tunnel-IsValue = fixed-IsValue tunnel refl refl refl refl refl

vpn-IsValue : IsValue 127 (codes "vpn")
unfolding codes trim_front trim_back
vpn-IsValue = fixed-IsValue (codes "vpn") refl refl refl refl refl

lan-IsValue : IsValue 127 (codes "LAN")
unfolding codes trim_front trim_back
lan-IsValue = fixed-IsValue (codes "LAN") refl refl refl refl refl

saved-IsSaved : IsSaved saved
unfolding valid_log_level log_levels codes str_eq
saved-IsSaved = record {
  lan = lan-IsValue;
  target = inr tunnel-IsValue;
  egress = inr tunnel-IsValue;
  table = inr vpn-IsValue;
  host = λ h. cc;
  level = refl;
  port = (omega arith, omega arith);
  size = (omega arith, omega arith);
  files = (omega arith, omega arith);
}

save_target-config_load_local_example :
    config_load_local none (some (config_text saved))
    ≡ with_host none (record (kept saved) { selection_configured = true })
save_target-config_load_local_example =
    save_target-config_load_local none defaults saved interface tunnel tunnel (codes "vpn")
      saved-set saved-IsSaved
