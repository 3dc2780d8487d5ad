-- ===== src/StateCleanup/Match.antt =====
-- Which objects the cleanup takes: the matchers of src/state_cleanup.c. A missing attribute is `none`.
pub mod Port
use susanin.Prelude.{ℕ, ◌+◌, ◌-◌, ◌*◌, ◌%◌, ◌^◌, Bool, true, false, ◌&&◌, ◌||◌, List, [], ◌∷◌}
use susanin.Prelude.{Option, none, some, ltb, if◌then◌else◌, any}
use susanin.Prelude.Text.{Text, codes, str_eq, starts_with, after_prefix}

abbrev pub Matcher : Type 0
Matcher = Option Text → Bool

unfoldable pub match_prefix : Text → Matcher
match_prefix pattern none = false
match_prefix pattern (some value) = starts_with pattern value

-- The loop of `port_suffix_valid`, over `unsigned long`.
unfoldable pub port_loop : ℕ → Text → Bool
port_loop port [] = true
port_loop port (c ∷ cs) =
    let port' = (port * 10 + (c - b'0')) % 2 ^ 64 in
    let rest = port_loop port' cs in
    if ltb c b'0' || ltb b'9' c then false else if ltb 65535 port' then false else rest

unfoldable pub port_suffix_valid : Text → Bool
unfolding port_loop
port_suffix_valid [] = false
port_suffix_valid (c ∷ cs) = port_loop 0 (c ∷ cs)

unfoldable pub dev2_prefixes : List Text
dev2_prefixes =
    codes "auto_awg_watch_tcp_"
    ∷ codes "auto_awg_test_tcp_"
    ∷ codes "auto_awg_ok_tcp_"
    ∷ codes "auto_awg_cooldown_tcp_"
    ∷ codes "auto_awg_direct1_tcp_"
    ∷ codes "auto_awg_awg1_tcp_"
    ∷ codes "auto_awg_recheck_tcp_"
    ∷ codes "auto_awg_watch_udp_"
    ∷ codes "auto_awg_test_udp_"
    ∷ codes "auto_awg_ok_udp_"
    ∷ codes "auto_awg_cooldown_udp_"
    ∷ codes "auto_awg_direct1_udp_"
    ∷ codes "auto_awg_awg1_udp_"
    ∷ codes "auto_awg_recheck_udp_"
    ∷ []

-- One round of the loop of `match_dev2_port_list`.
unfoldable pub is_port_list : Text → Text → Bool
is_port_list value prefix = elim (after_prefix prefix value) [
  | none ↦ false
  | some suffix ↦ port_suffix_valid suffix
]

unfoldable pub match_dev2_port_list : Matcher
unfolding is_port_list dev2_prefixes
match_dev2_port_list none = false
match_dev2_port_list (some value) = any (is_port_list value) dev2_prefixes

unfoldable pub legacy_lists : List Text
legacy_lists =
    codes "auto_awg_watch_tcp"
    ∷ codes "auto_awg_test_tcp"
    ∷ codes "auto_awg_ok_tcp"
    ∷ codes "auto_awg_cooldown_tcp"
    ∷ codes "auto_awg_watch_udp"
    ∷ codes "auto_awg_test_udp"
    ∷ codes "auto_awg_ok_udp"
    ∷ codes "auto_awg_cooldown_udp"
    ∷ []

unfoldable pub match_legacy_list : Matcher
unfolding legacy_lists
match_legacy_list none = false
match_legacy_list (some value) = any (str_eq value) legacy_lists

unfoldable pub match_adaptive_connection_mark : Matcher
match_adaptive_connection_mark none = false
match_adaptive_connection_mark (some value) =
    str_eq value (codes "auto-awg-test-conn") || str_eq value (codes "auto-awg-ok-conn")

-- `attr_true`
unfoldable pub attr_true : Matcher
attr_true none = false
attr_true (some value) = str_eq value (codes "true") || str_eq value (codes "yes")
