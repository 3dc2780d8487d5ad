-- ===== src/Tests/Target.antt =====
-- The theorems about src/target.c, applied.
use susanin.Prelude.{◌≡◌, refl, true}
use susanin.Ros.Session.{Session}
use susanin.Ros.Session.Log.{Issued}
use susanin.Config.Load.{defaults}
use susanin.Target.Select.Effects.{IsTarget, Issued-target_set_interface}
use susanin.Target.Select.{Selection}
use susanin.Tests.World.{tunnelled, untouched}
use susanin.Prelude.Text.{codes, after_prefix}
use susanin.Ros.Sentence.{is_reply, get_attr}
use susanin.Ros.Command.{take_reply, drain}
use susanin.Ros.Session.{ros_login}
use susanin.Config.Options.{save_target}
use susanin.Target.Interfaces.{extract_iface}
use susanin.Target.Routes.{see_name}
use susanin.Target.Select.{target_set_interface, target_set_routing_table}

abbrev by_interface : Selection × Session tunnelled
by_interface = target_set_interface true defaults (codes "wg0") untouched

Issued-target_set_interface_example : Issued (IsTarget (codes "wg0")) 2 untouched by_interface.1
Issued-target_set_interface_example =
    Issued-target_set_interface (codes "wg0") true defaults untouched

abbrev by_table : Selection × Session tunnelled
by_table = target_set_routing_table true defaults (codes "vpn") untouched

-- The interface behind the `%` of the immediate gateway is the egress.
by_table-egress : by_table.0.cfg.egress ≡ codes "wg0"
unfolding after_prefix is_reply get_attr take_reply drain ros_login save_target extract_iface
    see_name target_set_routing_table
by_table-egress = refl
