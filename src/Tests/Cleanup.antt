-- ===== src/Tests/Cleanup.antt =====
-- The theorems about src/state_cleanup.c and src/fingerprint.c, applied.
use susanin.Prelude.{◌≡◌, refl, false, List, [], ◌∷◌, some, length, arith}
use susanin.Prelude.Int.{ℤ, is_neg}
use susanin.Prelude.Text.{Text}
use susanin.Ros.Sentence.{Sentence}
use susanin.Ros.Session.{Session}
use susanin.Ros.Session.Calls.{received}
use susanin.StateCleanup.Entry.{CleanupStats}
use susanin.StateCleanup.Entry.Laws.{Dev2Gone, cleanup_dev2_runtime_good}
use susanin.StateCleanup.Disable.Laws.{FailOpen, disable_adaptive_mangle_good}
use susanin.Tests.World.{one_entry, listed, one_auto, marking}
use susanin.Prelude.Text.{codes, str_eq, after_prefix, starts_with}
use susanin.Ros.Sentence.{is_reply, get_attr}
use susanin.Ros.Command.{take_reply, drain}
use susanin.Ros.Session.{ros_command, sleep}
use susanin.StateCleanup.Match.{match_prefix, match_dev2_port_list, match_legacy_list, attr_true}
use susanin.StateCleanup.Scan.{
  matching_id, collect_cb, scan_words, collect_ids, remove_ids_best_effort,
}
use susanin.StateCleanup.Matching.{cleanup_matching}
use susanin.StateCleanup.Entry.{
  legacy_target, marks_target, port_target, lazy_target, cleanup_dev2_runtime,
}
use susanin.StateCleanup.Disable.{
  auto_rules, disable_words, is_enabled_auto, enabled_auto_cb, verify_words, disable_rules,
  disable_adaptive_mangle,
}

abbrev dev2_run : ℤ × CleanupStats × Session one_entry
dev2_run = cleanup_dev2_runtime listed

dev2_run-succeeds : is_neg dev2_run.0 ≡ false
unfolding codes str_eq after_prefix is_reply get_attr take_reply drain ros_command sleep
    match_dev2_port_list match_legacy_list matching_id collect_cb scan_words collect_ids
    remove_ids_best_effort cleanup_matching legacy_target marks_target port_target lazy_target
    cleanup_dev2_runtime
dev2_run-succeeds = refl

cleanup_dev2_runtime_good_example : Dev2Gone listed dev2_run.2
cleanup_dev2_runtime_good_example =
    cleanup_dev2_runtime_good listed dev2_run.2 dev2_run.0 dev2_run.1 refl dev2_run-succeeds

abbrev auto_ids : List Text
auto_ids = codes "*9" ∷ []

abbrev scanned : Session one_auto
scanned = (collect_ids marking auto_rules).1

marking-found : collect_ids marking auto_rules ≡ (some auto_ids, scanned)
unfolding codes str_eq after_prefix starts_with is_reply get_attr take_reply drain ros_command
    match_prefix matching_id collect_cb scan_words collect_ids auto_rules
marking-found = refl

abbrev last_replies : List Sentence
last_replies = received (disable_rules scanned auto_ids) verify_words

two_replies : length last_replies ≡ 2
unfolding codes str_eq is_reply drain ros_command scan_words collect_ids auto_rules disable_words
    verify_words disable_rules
two_replies = refl

abbrev opened : ℤ × Session one_auto
opened = disable_adaptive_mangle marking

opened-succeeds : is_neg opened.0 ≡ false
unfolding codes str_eq after_prefix starts_with is_reply get_attr take_reply drain match_prefix
    attr_true matching_id collect_cb scan_words collect_ids auto_rules disable_words is_enabled_auto
    enabled_auto_cb verify_words disable_rules disable_adaptive_mangle ros_command
opened-succeeds = refl

disable_adaptive_mangle_good_example : FailOpen last_replies
disable_adaptive_mangle_good_example =
    disable_adaptive_mangle_good marking scanned opened.1 auto_ids opened.0 marking-found
      (omega (arith, two_replies)) refl opened-succeeds
