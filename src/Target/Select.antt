-- ===== src/Target/Select.antt =====
-- `target_set_interface` and `target_set_routing_table` of src/target.c.
pub mod Effects
pub mod Saved
pub mod Interface
pub mod Table
use susanin.Prelude.{
  Bool, true, false, not, ◌&&◌, ◌||◌, List, [], ◌∷◌, Option, none, some, if◌then◌else◌, any,
  is_some,
}
use susanin.Prelude.Int.{ℤ, pos, minus_one}
use susanin.Prelude.Text.{Text, codes, str_eq}
use susanin.Prelude.Decimal.{is_empty}
use susanin.Ros.Session.{Router, Session}
use susanin.Config.Options.{TargetMode, interface, routing_table, Settings, save_target}
use susanin.Config.Write.{config_text}
use susanin.Target.Interfaces.{
  TargetIface, find_iface, load_ifaces, table_list_cb, table_words, collect,
}
use susanin.Target.Routes.{
  Agreed, nothing_seen, iface_route_cb, TableRoute, table_route_cb, route_words,
  ensure_dedicated_table,
}

-- What a selection leaves: its result, the settings, and the settings file if it was replaced.
pub record Selection : Type 0 where
  pub rc : ℤ
  pub cfg : Settings
  pub file : Option Text

-- A selection that was refused.
abbrev pub refused : Settings → Selection
refused cfg = record { rc = minus_one; cfg = cfg; file = none }

-- `config_save_target`; `writes` tells whether the file system lets the file be replaced.
unfoldable pub config_save_target : Bool → Settings → TargetMode → Text → Text → Text → Selection
config_save_target writes cfg mode value egress table =
    elim (save_target cfg mode value egress table) [
      | none ↦ refused cfg
      | some cfg' ↦
          if writes
          then record { rc = pos 0; cfg = cfg'; file = some (config_text cfg') }
          else record { rc = minus_one; cfg = cfg'; file = none }
    ]

-- The table that the routes through the interface agree on.
unfoldable pub agreed_name : Agreed → Option Text
agreed_name a = if a.ambiguous then none else a.first

-- The egress that a routing table is saved with: empty when its routes do not agree on one.
unfoldable pub egress_of : TableRoute → Text
unfolding agreed_name
egress_of t = elim (agreed_name t.egress) [ none ↦ [] | some name ↦ name ]

-- The table that the routes agree on, or the controller's own.
unfoldable pub choose_table :
    {R : Router} → Text → Option Agreed → Session R → Option Text × Session R
unfolding agreed_name
choose_table name none s = (none, s)
choose_table name (some a) s =
    let (ready, s') = ensure_dedicated_table s name in
    elim (agreed_name a) [
      | some table ↦ (some table, s)
      | none ↦ if ready then (some (codes "susanin"), s') else (none, s')
    ]

module _ {R : Router} (writes : Bool) (cfg : Settings) (name : Text) where
  unfoldable pub with_iface : TargetIface → Session R → Selection × Session R
  unfolding choose_table iface_route_cb collect config_save_target
  with_iface i s =
      let (routes, s1) = collect s route_words (iface_route_cb name) nothing_seen in
      let (table, s2) = choose_table name routes s1 in
      if i.disabled then (refused cfg, s) else (elim table [
        | none ↦ (refused cfg, s2)
        | some t ↦ (config_save_target writes cfg interface name name t, s2)
      ])

  unfoldable pub target_set_interface : Session R → Selection × Session R
  unfolding with_iface load_ifaces
  target_set_interface s =
      let (ifaces, s1) = load_ifaces s in
      elim ifaces [
        | none ↦ (refused cfg, s1)
        | some db ↦ elim (find_iface db name) [
          | none ↦ (refused cfg, s1)
          | some i ↦ with_iface i s1
        ]
      ]

  -- Behind the interfaces: the default routes of the table.
  unfoldable pub with_table : List TargetIface → Session R → Selection × Session R
  unfolding table_route_cb collect egress_of config_save_target
  with_table db s =
      let (routes, s1) =
        collect s route_words (table_route_cb name db)
          (record { default_found = false; egress = nothing_seen }) in
      elim routes [
        | none ↦ (refused cfg, s1)
        | some t ↦
            if t.default_found
            then (config_save_target writes cfg routing_table name (egress_of t) name, s1)
            else (refused cfg, s1)
      ]

  -- Behind the tables: the interfaces.
  unfoldable pub with_tables : List Text → Session R → Selection × Session R
  unfolding with_table load_ifaces
  with_tables names s =
      let (ifaces, s1) = load_ifaces s in
      if not (any (λ t. str_eq t name) names)
      then (refused cfg, s)
      else (elim ifaces [ none ↦ (refused cfg, s1) | some db ↦ with_table db s1 ])

  unfoldable pub target_set_routing_table : Session R → Selection × Session R
  unfolding with_tables collect table_list_cb
  target_set_routing_table s =
      let (tables, s1) = collect s table_words table_list_cb [] in
      if is_empty name || str_eq name (codes "main")
      then (refused cfg, s)
      else (elim tables [ none ↦ (refused cfg, s1) | some names ↦ with_tables names s1 ])
