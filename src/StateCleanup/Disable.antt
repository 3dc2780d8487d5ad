-- ===== src/StateCleanup/Disable.antt =====
-- `susanin_disable_adaptive_mangle`, src/state_cleanup.c: the emergency fail-open fallback.
pub mod Laws
use susanin.Prelude.{
  ℕ, ◌+◌, ◌%◌, ◌^◌, Bool, true, false, not, ◌&&◌, ◌||◌, List, [], ◌∷◌, Option, none, some, ◌==◌,
  if◌then◌else◌,
}
use susanin.Prelude.Int.{ℤ, pos, minus_one, is_neg}
use susanin.Prelude.Text.{Text, codes}
use susanin.Ros.Sentence.{Sentence, is_reply, get_attr}
use susanin.Ros.Command.{Callback}
use susanin.Ros.Session.{Router, Session, ros_command}
use susanin.StateCleanup.Match.{match_prefix, attr_true}
use susanin.StateCleanup.Scan.{Target, collect_ids, id_word}

unfoldable pub auto_rules : Target
auto_rules = record {
  print_cmd = codes "/ip/firewall/mangle/print";
  remove_cmd = codes "/ip/firewall/mangle/remove";
  proplist = codes "=.proplist=.id,comment";
  query = none;
  attr = codes "comment";
  match = match_prefix (codes "AUTO-AWG:");
}

unfoldable pub disable_words : Text → List Text
disable_words id = codes "/ip/firewall/mangle/set" ∷ id_word id ∷ codes "=disabled=yes" ∷ []

-- One reply of the verification: an adaptive rule that is not disabled.
unfoldable pub is_enabled_auto : Sentence → Bool
is_enabled_auto s =
    is_reply s (codes "!re")
    && match_prefix (codes "AUTO-AWG:") (get_attr s (codes "comment"))
    && not (attr_true (get_attr s (codes "disabled")))

unfoldable pub enabled_auto_cb : Callback ℕ
enabled_auto_cb s enabled = (pos 0, if is_enabled_auto s then (enabled + 1) % 2 ^ 32 else enabled)

unfoldable pub verify_words : List Text
verify_words = codes "/ip/firewall/mangle/print" ∷ codes "=.proplist=comment,disabled" ∷ []

module _ {R : Router} where
  unfoldable pub disable_rules : Session R → List Text → Session R
  disable_rules s [] = s
  disable_rules s (id ∷ ids) = disable_rules (ros_command s (disable_words id) none tt).2 ids

  pub disable_found : Option (List Text) → Session R → ℤ × Session R
  disable_found none s = (minus_one, s)
  disable_found (some ids) s =
      let (rc, enabled, s') =
        ros_command (disable_rules s ids) verify_words (some enabled_auto_cb) 0 in
      ((if is_neg rc then minus_one else if enabled == 0 then pos 0 else minus_one), s')

  unfoldable pub disable_adaptive_mangle : Session R → ℤ × Session R
  unfolding disable_found
  disable_adaptive_mangle s = let (found, s') = collect_ids s auto_rules in disable_found found s'
