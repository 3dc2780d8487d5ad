-- ===== src/Tests/Collection.antt =====
-- The theorems about src/gc.c, applied.
use susanin.Prelude.{◌≡◌, ◌≤◌, ◌⊎◌, refl, true, false, List, [], ◌∷◌, some, length, arith}
use susanin.Prelude.Int.{minus_one}
use susanin.StateCleanup.Disable.{disable_adaptive_mangle}
use susanin.Prelude.Text.{Text}
use susanin.Ros.Sentence.{Sentence}
use susanin.Ros.Session.{Session}
use susanin.Ros.Session.Log.{SentOnly}
use susanin.Gc.Names.{test, ok, max_lazy}
use susanin.Gc.Names.RoundTrip.{lazy_comment, parse_port-decimal, parse_lazy_comment-lazy_comment}
use susanin.Gc.Gate.{Script}
use susanin.Gc.FailSafe.{gc_fail_safe}
use susanin.Gc.FailSafe.Effects.{IsFailSafe, SentOnly-gc_fail_safe}
use susanin.Gc.Lazy.{LazyCandidate, LazyCollect}
use susanin.Gc.Lazy.Decide.{CountedEmpty, decide_lazy-empty}
use susanin.Prelude.{Bool}
use susanin.Gc.Run.{no_gc_stats}
use susanin.Gc.Lazy.{GcStats, judge_shape, with_name, remove_lazy_verified, process_lazy_kind}
use susanin.Gc.Queries.{lazy_id_exists, id_find_cb, remove_id}
use susanin.Gc.Lazy.Verified.{Processed, process_lazy_kind-Processed}
use susanin.Gc.Lazy.Scan.{collect_lazy_kind-Fits}
use susanin.Gc.Marks.{MarkCandidate}
use susanin.Gc.Marks.Decide.{SeenAbsent, decide_mark-absent}
use susanin.Gc.FailSafe.Paused.{AllPaused, gc_fail_safe-AllPaused}
use susanin.Tests.World.{schedulers, scheduled, one_rule, start}
use susanin.Prelude.Text.{codes, str_eq, after_prefix, starts_with}
use susanin.Prelude.Decimal.{print_loop, decimal, skip_space, read_digits, strtoul}
use susanin.Ros.Sentence.{is_reply, get_attr}
use susanin.Ros.Command.{take_reply, drain}
use susanin.Ros.Session.{ros_command}
use susanin.Fingerprint.{fingerprint_hex}
use susanin.Gc.Names.{
  prod_names, kind_eq, mark_name, state_name, parse_port, make_state_list, word_chars, scan_word,
  scan_unsigned, scan_literal, lazy_state, is_proto, parse_lazy_comment,
}
use susanin.Gc.Queries.{
  count_value, count_only_cb, ask, count_filtered_one, count_filtered_two_and, address_list_count,
  state_contains_address,
}
use susanin.Gc.Gate.{normal_runtime_gate}
use susanin.Gc.Lazy.{shape_matches, lazy_candidate, lazy_collect_cb, collect_lazy_kind, decide_lazy}
use susanin.Gc.Marks.{decide_mark}

abbrev want : Script
want = record { bytes = 1; fp = fingerprint_hex (codes "x") }

abbrev desired : List Script
desired = want ∷ want ∷ want ∷ want ∷ []

abbrev gated : Session one_rule
gated = (normal_runtime_gate (some desired) start).1

SentOnly-gc_fail_safe_example : SentOnly IsFailSafe start (gc_fail_safe start).2
SentOnly-gc_fail_safe_example = SentOnly-gc_fail_safe start

abbrev rule_comment : Text
rule_comment = codes "AUTO-AWG: P tcp 443 TEST"

abbrev rule_reply : Sentence
rule_reply =
    codes "!re"
    ∷ codes "=.id=*7"
    ∷ codes "=comment=AUTO-AWG: P tcp 443 TEST"
    ∷ codes "=protocol=tcp"
    ∷ codes "=dst-port=443"
    ∷ codes "=dst-address-list=auto_awg_test_tcp_443"
    ∷ []

abbrev rule : LazyCandidate
rule = lazy_candidate test rule_comment rule_reply

rule-goes : decide_lazy rule start ≡ (some true, (decide_lazy rule start).1)
unfolding codes str_eq after_prefix print_loop decimal skip_space read_digits strtoul is_reply
    get_attr take_reply drain ros_command kind_eq state_name parse_port make_state_list word_chars
    scan_word scan_unsigned scan_literal lazy_state is_proto parse_lazy_comment count_value
    count_only_cb ask count_filtered_one address_list_count shape_matches lazy_candidate decide_lazy
rule-goes = refl

decide_lazy-empty_example :
    (rule.shape_valid ≡ false)
    ⊎ CountedEmpty
        (make_state_list (state_name rule.parsed_kind) rule.parsed_proto rule.parsed_port)
        start
        (decide_lazy rule start).1
decide_lazy-empty_example = decide_lazy-empty rule start (decide_lazy rule start).1 rule-goes

abbrev passed : Bool × GcStats × Session one_rule
passed = process_lazy_kind (rule ∷ []) 3 no_gc_stats start

passed-good : passed.0 ≡ true
unfolding codes str_eq after_prefix print_loop decimal skip_space read_digits strtoul is_reply
    get_attr take_reply drain ros_command kind_eq state_name parse_port make_state_list word_chars
    scan_word scan_unsigned scan_literal lazy_state is_proto parse_lazy_comment count_value
    count_only_cb ask count_filtered_one address_list_count shape_matches lazy_candidate decide_lazy
    judge_shape with_name lazy_id_exists id_find_cb remove_id remove_lazy_verified process_lazy_kind
passed-good = refl

process_lazy_kind-Processed_example : Processed (rule ∷ []) 3 start passed.2
process_lazy_kind-Processed_example =
    process_lazy_kind-Processed (rule ∷ []) 3 no_gc_stats start passed-good

abbrev one_lazy : LazyCollect
one_lazy = record { items = rule ∷ []; truncated = false }

one_lazy-scanned : collect_lazy_kind test start ≡ (some one_lazy, (collect_lazy_kind test start).1)
unfolding codes str_eq after_prefix starts_with skip_space read_digits strtoul is_reply get_attr
    take_reply drain ros_command mark_name count_value count_only_cb ask count_filtered_one
    lazy_collect_cb collect_lazy_kind
one_lazy-scanned = refl

collect_lazy_kind-Fits_example : (length one_lazy.items ≤ max_lazy) × (one_lazy.truncated ≡ false)
collect_lazy_kind-Fits_example =
    collect_lazy_kind-Fits test start (collect_lazy_kind test start).1 one_lazy one_lazy-scanned

abbrev conn : MarkCandidate
conn = record {
  id = codes "*3";
  protocol = codes "tcp";
  dst = codes "1.2.3.4";
  port = 443;
  valid = true;
  kind = ok;
}

conn-stale : decide_mark conn start ≡ (some true, (decide_mark conn start).1)
unfolding codes str_eq after_prefix skip_space read_digits strtoul is_reply get_attr take_reply
    drain ros_command count_value count_only_cb ask count_filtered_two_and state_contains_address
    decide_mark
conn-stale = refl

decide_mark-absent_example :
    SeenAbsent
      (make_state_list (state_name ok) (codes "tcp") 443)
      (codes "1.2.3.4")
      start
      (decide_mark conn start).1
decide_mark-absent_example = decide_mark-absent conn start (decide_mark conn start).1 conn-stale

parse_port-decimal_example : parse_port (some (decimal 8080)) ≡ some 8080
parse_port-decimal_example = parse_port-decimal 8080 (omega arith, omega arith)

udp_known : is_proto (codes "udp") ≡ true
unfolding codes str_eq is_proto
udp_known = refl

parse_lazy_comment-lazy_comment_example :
    parse_lazy_comment (lazy_comment (codes "udp") 3478 ok)
    ≡ some (record { proto = codes "udp"; port = 3478; kind = ok })
parse_lazy_comment-lazy_comment_example =
    parse_lazy_comment-lazy_comment (codes "udp") 3478 ok udp_known (omega arith, omega arith)

gc_fail_safe-AllPaused_example :
    ((gc_fail_safe scheduled).0 ≡ minus_one)
    × ((1 ≤ (gc_fail_safe scheduled).1.0)
        ⊎ ((s1 : Session schedulers) × AllPaused prod_names scheduled s1
            × ((disable_adaptive_mangle s1).1 ≡ (gc_fail_safe scheduled).2)))
gc_fail_safe-AllPaused_example = gc_fail_safe-AllPaused scheduled
