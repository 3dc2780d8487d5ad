-- ===== src/StateCleanup/Entry.antt =====
-- The entry points of src/state_cleanup.c for migration and rollback.
pub mod Laws
use susanin.Prelude.{ℕ, Bool, true, false, List, [], ◌∷◌, none, some}
use susanin.Prelude.Int.{ℤ, pos, minus_one, is_neg}
use susanin.Prelude.Text.{codes}
use susanin.Ros.Session.{Router, Session}
use susanin.StateCleanup.Match.{
  match_prefix, match_legacy_list, match_adaptive_connection_mark, match_dev2_port_list,
}
use susanin.StateCleanup.Scan.{Target}
use susanin.StateCleanup.Matching.{cleanup_matching}

-- `susanin_cleanup_stats_t`
pub record CleanupStats : Type 0 where
  pub lazy_rules : ℕ
  pub port_entries : ℕ
  pub legacy_entries : ℕ
  pub marked_connections : ℕ

abbrev pub no_stats : CleanupStats
no_stats = record { lazy_rules = 0; port_entries = 0; legacy_entries = 0; marked_connections = 0 }

unfoldable pub legacy_target : Target
legacy_target = record {
  print_cmd = codes "/ip/firewall/address-list/print";
  remove_cmd = codes "/ip/firewall/address-list/remove";
  proplist = codes "=.proplist=.id,list";
  query = none;
  attr = codes "list";
  match = match_legacy_list;
}

unfoldable pub marks_target : Target
marks_target = record {
  print_cmd = codes "/ip/firewall/connection/print";
  remove_cmd = codes "/ip/firewall/connection/remove";
  proplist = codes "=.proplist=.id,connection-mark";
  query = none;
  attr = codes "connection-mark";
  match = match_adaptive_connection_mark;
}

unfoldable pub port_target : Target
port_target = record {
  print_cmd = codes "/ip/firewall/address-list/print";
  remove_cmd = codes "/ip/firewall/address-list/remove";
  proplist = codes "=.proplist=.id,list";
  query = none;
  attr = codes "list";
  match = match_dev2_port_list;
}

unfoldable pub lazy_target : Target
lazy_target = record {
  print_cmd = codes "/ip/firewall/mangle/print";
  remove_cmd = codes "/ip/firewall/mangle/remove";
  proplist = codes "=.proplist=.id,comment";
  query = none;
  attr = codes "comment";
  match = match_prefix (codes "AUTO-AWG: P ");
}

module _ {R : Router} where
  pub cleanup_legacy_lists : ℕ → Session R → ℤ × ℕ × Session R
  cleanup_legacy_lists removed s = cleanup_matching legacy_target false removed s

  -- Only here scan errors are retried.
  pub cleanup_marked_connections : ℕ → Session R → ℤ × ℕ × Session R
  cleanup_marked_connections removed s = cleanup_matching marks_target true removed s

  pub cleanup_port_lists : ℕ → Session R → ℤ × ℕ × Session R
  cleanup_port_lists removed s = cleanup_matching port_target false removed s

  pub cleanup_lazy_rules : ℕ → Session R → ℤ × ℕ × Session R
  cleanup_lazy_rules removed s = cleanup_matching lazy_target false removed s

  pub cleanup_legacy_into : CleanupStats → Session R → ℤ × CleanupStats × Session R
  cleanup_legacy_into stats s =
      let (rc, n, s1) = cleanup_legacy_lists stats.legacy_entries s in
      let stats1 : CleanupStats = record stats { legacy_entries = n } in
      elim (is_neg rc) [
        | true ↦ (minus_one, stats1, s1)
        | false ↦
            let (rc', m, s2) = cleanup_marked_connections stats1.marked_connections s1 in
            (
              (elim (is_neg rc') [ true ↦ minus_one | false ↦ pos 0 ]),
              record stats1 { marked_connections = m },
              s2,
            )
      ]

  unfoldable pub cleanup_legacy_state : Session R → ℤ × CleanupStats × Session R
  unfolding cleanup_legacy_into cleanup_legacy_lists cleanup_marked_connections
  cleanup_legacy_state s = cleanup_legacy_into no_stats s

  -- The mark rules go first, so that nothing marks a connection while its state is removed.
  unfoldable pub cleanup_dev2_runtime : Session R → ℤ × CleanupStats × Session R
  unfolding cleanup_legacy_into cleanup_legacy_lists cleanup_marked_connections cleanup_lazy_rules
      cleanup_port_lists
  cleanup_dev2_runtime s =
      let (rc1, lazy, s1) = cleanup_lazy_rules 0 s in
      let stats1 : CleanupStats = record no_stats { lazy_rules = lazy } in
      elim (is_neg rc1) [
        | true ↦ (minus_one, stats1, s1)
        | false ↦
            let (rc2, ports, s2) = cleanup_port_lists 0 s1 in
            let stats2 : CleanupStats = record stats1 { port_entries = ports } in
            elim (is_neg rc2) [
              | true ↦ (minus_one, stats2, s2)
              | false ↦ cleanup_legacy_into stats2 s2
            ]
      ]
