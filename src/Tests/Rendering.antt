-- ===== src/Tests/Rendering.antt =====
-- The theorems about src/renderer.c, and those about a collection run with its scripts, applied.
use susanin.Prelude.{◌≤◌, ◌<◌, ◌≡◌, refl, true, false, [], ◌∷◌, Option, some, length, ◌⊎◌, arith}
use susanin.Prelude.Int.{ℤ, is_neg}
use susanin.Prelude.Text.{Text}
use susanin.Ros.Session.{Session}
use susanin.Ros.Session.Log.{Issued}
use susanin.Config.Options.{Settings}
use susanin.Config.Load.{defaults}
use susanin.Gc.Commands.{IsGcCommand}
use susanin.Gc.Lazy.{GcStats}
use susanin.Gc.Run.Endings.{Bounded, FailedSafe}
use susanin.Gc.Run.Owned.{Owned}
use susanin.Gc.Run.Verified.{Collected}
use susanin.Gc.Run.Rendered.{
  collection_run-Bounded, collection_run-FailedSafe, collection_run-Owned,
}
use susanin.Renderer.Replace.Leftmost.{Replaced, replace_all-Replaced}
use susanin.Renderer.Replace.Length.{out_length-replace_all}
use susanin.Renderer.Snippet.Fits.{lan_match_text}
use susanin.Renderer.Snippet.{lan_capacity}
use susanin.Renderer.Build.{RenderCtx}
use susanin.Renderer.Build.Lan.{query_lan-snippet}
use susanin.Tests.World.{with_lan, one_rule, no_schedulers, rendering, rendering_refused}
use susanin.Prelude.Text.{codes, str_eq, after_prefix, starts_with, c_string}
use susanin.Prelude.Decimal.{
  print_loop, decimal, skip_space, read_digits, signed_value, number_at, after_sign, strtoul,
}
use susanin.Ros.Sentence.{recv_words, recv_sentence, is_reply, attr_of, find_attr, get_attr}
use susanin.Ros.Command.{is_done, is_trap, is_fatal, take_reply, drain}
use susanin.Ros.Session.{ros_command, sleep}
use susanin.Fingerprint.{fnv_step, fnv_from, fnv1a64, hex_loop, fingerprint_hex}
use susanin.Config.Options.{
  log_levels, valid_log_level, target_mode_name, parse_target_mode, accuracy_profile_name,
  parse_accuracy_profile, parse_unsigned_range, parse_switch, set_option, save_target,
}
use susanin.Direct.Value.{
  kind_name, parse_kind, split_at, parse_prefix, canonical_ip, normalize_ip, to_lower, ends_dash,
  valid_domain_label, valid_labels, strip_dots, lower, normalize_domain, normalize_value,
}
use susanin.StateCleanup.Match.{
  match_prefix, port_loop, port_suffix_valid, dev2_prefixes, is_port_list, match_dev2_port_list,
  legacy_lists, match_legacy_list, match_adaptive_connection_mark, attr_true,
}
use susanin.StateCleanup.Scan.{
  id_vec_add, matching_id, collect_cb, scan_words, add_stat, id_word, collect_ids,
  remove_ids_best_effort,
}
use susanin.StateCleanup.Disable.{
  auto_rules, disable_words, is_enabled_auto, enabled_auto_cb, verify_words, disable_rules,
  disable_adaptive_mangle,
}
use susanin.Gc.Names.{
  prod_names, fixed_comments, kind_eq, mark_name, state_name, parse_port, make_state_list,
  word_chars, scan_word, scan_unsigned, scan_literal, lazy_state, is_proto, lazy_name,
  parse_lazy_comment,
}
use susanin.Gc.Queries.{
  script_gate_cb, scheduler_gate_cb, fixed_gate_cb, count_re_cb, count_value, count_only_cb,
  id_find_cb, ask, query_script_gate, query_scheduler_gate, query_fixed_gate, managed_job_count,
  count_filtered_one, count_filtered_two_and, address_list_count, lazy_id_exists,
  state_contains_address, remove_id,
}
use susanin.Gc.Gate.{
  script_is_exact, scheduler_is_normal, fixed_is_normal, check_scripts, check_schedulers,
  check_fixed, and_then, normal_runtime_gate,
}
use susanin.Gc.FailSafe.{
  pause_words, is_paused, pause_found, disable_scheduler_exact, pause_all, gc_fail_safe,
}
use susanin.Gc.Lazy.{
  with_name, shape_matches, judge_shape, lazy_candidate, lazy_collect_cb, collect_lazy_kind,
  remove_lazy_verified, decide_lazy, process_lazy_kind,
}
use susanin.Gc.Marks.{
  mark_candidate, mark_collect_cb, verify_marks_cb, collect_mark_kind_once, collect_mark_loop,
  collect_mark_kind, verify_mark_ids_absent_once, verify_mark_loop, verify_mark_ids_absent,
  decide_mark, attempt_marks, settle_marks, process_mark_kind,
}
use susanin.Gc.Run.{
  and_also, scan_both, process_lazy, process_marks, lazy_stage, mark_stage, budget_stage, mutate,
  finish, run_gated, gc_run_once,
}
use susanin.Gc.Run.Rendered.{wanted_scripts, rendered_scripts, collection_run}
use susanin.Renderer.Replace.{replace_loop, count_loop, out_length, replace_all}
use susanin.Renderer.Snippet.{
  mask_bits, ipv4_mask, put, lan_head, lan_open, lan_close, lan_or, net_test, put_nets,
  lan_match_buffer, lan_match_snippet,
}
use susanin.Renderer.Build.{
  has_if, is_disabled, member_of, add_iface, member_cb, address_prefix, keep_egress, add_net,
  address_of, addr_cb, log_level_rank, log_enabled, load_template, placeholders, replace_each,
  render_one, render_all, script_files, bundle_of, is_usable, query_lan, renderer_build,
}

abbrev cfg : Settings
cfg = record defaults { egress = codes "wg0"; table = codes "vpn" }

-- Every template holds one byte.
abbrev one_byte : Text → Option Text
one_byte path = some (codes "x")

-- Two needles that touch, and a part of one behind them.
banana : replace_all (codes "ananasan") (codes "ana") (codes "b") ≡ some (codes "bnasan")
unfolding replace_all codes after_prefix
banana = refl

replace_all-Replaced_example :
    Replaced (codes "ana") (codes "b") (codes "ananasan") (codes "bnasan")
replace_all-Replaced_example =
    replace_all-Replaced (codes "ananasan") (codes "ana") (codes "b") (codes "bnasan") banana

out_length-replace_all_example : out_length (codes "ananasan") (codes "ana") (codes "b") ≡ 6
unfolding codes
out_length-replace_all_example =
    out_length-replace_all (codes "ananasan") (codes "ana") (codes "b") (codes "bnasan") banana
      (omega arith) (omega arith) (omega arith)

abbrev lan : Option RenderCtx
lan = (query_lan one_byte cfg rendering).0

abbrev seen : RenderCtx
seen = record {
  ifs = codes "bridge" ∷ [];
  nets = record { network = codes "192.168.1.0"; prefix = 24; mask = codes "255.255.255.0" } ∷ [];
  egress_address = codes "10.9.0.2/32";
}

lan-seen : lan ≡ some seen
unfolding codes str_eq after_prefix starts_with c_string print_loop decimal skip_space read_digits
    signed_value number_at after_sign strtoul recv_words recv_sentence is_reply attr_of find_attr
    get_attr is_done is_trap is_fatal take_reply drain ros_command sleep fnv_step fnv_from fnv1a64
    hex_loop fingerprint_hex log_levels valid_log_level target_mode_name parse_target_mode
    accuracy_profile_name parse_accuracy_profile parse_unsigned_range parse_switch set_option
    save_target kind_name parse_kind split_at parse_prefix canonical_ip normalize_ip to_lower
    ends_dash valid_domain_label valid_labels strip_dots lower normalize_domain normalize_value
    match_prefix port_loop port_suffix_valid dev2_prefixes is_port_list match_dev2_port_list
    legacy_lists match_legacy_list match_adaptive_connection_mark attr_true id_vec_add matching_id
    collect_cb scan_words add_stat id_word collect_ids remove_ids_best_effort auto_rules
    disable_words is_enabled_auto enabled_auto_cb verify_words disable_rules disable_adaptive_mangle
    prod_names fixed_comments kind_eq mark_name state_name parse_port make_state_list word_chars
    scan_word scan_unsigned scan_literal lazy_state is_proto lazy_name parse_lazy_comment
    script_gate_cb scheduler_gate_cb fixed_gate_cb count_re_cb count_value count_only_cb id_find_cb
    ask query_script_gate query_scheduler_gate query_fixed_gate managed_job_count count_filtered_one
    count_filtered_two_and address_list_count lazy_id_exists state_contains_address remove_id
    script_is_exact scheduler_is_normal fixed_is_normal check_scripts check_schedulers check_fixed
    and_then normal_runtime_gate pause_words is_paused pause_found disable_scheduler_exact pause_all
    gc_fail_safe with_name shape_matches judge_shape lazy_candidate lazy_collect_cb
    collect_lazy_kind remove_lazy_verified decide_lazy process_lazy_kind mark_candidate
    mark_collect_cb verify_marks_cb collect_mark_kind_once collect_mark_loop collect_mark_kind
    verify_mark_ids_absent_once verify_mark_loop verify_mark_ids_absent decide_mark attempt_marks
    settle_marks process_mark_kind and_also scan_both process_lazy process_marks lazy_stage
    mark_stage budget_stage mutate finish run_gated gc_run_once wanted_scripts rendered_scripts
    collection_run replace_loop count_loop out_length replace_all mask_bits ipv4_mask put lan_head
    lan_open lan_close lan_or net_test put_nets lan_match_buffer lan_match_snippet has_if
    is_disabled member_of add_iface member_cb address_prefix keep_egress add_net address_of addr_cb
    log_level_rank log_enabled load_template placeholders replace_each render_one render_all
    script_files bundle_of is_usable query_lan renderer_build
lan-seen = refl

query_lan-snippet_example :
    (length seen.ifs ≤ 64)
    × (length seen.nets ≤ 128)
    × (lan_match_snippet seen.nets ≡ lan_match_text seen.nets)
    × ((lan_match_buffer seen.nets).used < lan_capacity seen.nets)
query_lan-snippet_example = query_lan-snippet one_byte cfg rendering seen lan-seen

abbrev ran : ℤ × GcStats × Session (with_lan one_rule)
ran = collection_run one_byte cfg rendering

ran-succeeds : is_neg ran.0 ≡ false
unfolding codes str_eq after_prefix starts_with c_string print_loop decimal skip_space read_digits
    signed_value number_at after_sign strtoul recv_words recv_sentence is_reply attr_of find_attr
    get_attr is_done is_trap is_fatal take_reply drain ros_command sleep fnv_step fnv_from fnv1a64
    hex_loop fingerprint_hex log_levels valid_log_level target_mode_name parse_target_mode
    accuracy_profile_name parse_accuracy_profile parse_unsigned_range parse_switch set_option
    save_target kind_name parse_kind split_at parse_prefix canonical_ip normalize_ip to_lower
    ends_dash valid_domain_label valid_labels strip_dots lower normalize_domain normalize_value
    match_prefix port_loop port_suffix_valid dev2_prefixes is_port_list match_dev2_port_list
    legacy_lists match_legacy_list match_adaptive_connection_mark attr_true id_vec_add matching_id
    collect_cb scan_words add_stat id_word collect_ids remove_ids_best_effort auto_rules
    disable_words is_enabled_auto enabled_auto_cb verify_words disable_rules disable_adaptive_mangle
    prod_names fixed_comments kind_eq mark_name state_name parse_port make_state_list word_chars
    scan_word scan_unsigned scan_literal lazy_state is_proto lazy_name parse_lazy_comment
    script_gate_cb scheduler_gate_cb fixed_gate_cb count_re_cb count_value count_only_cb id_find_cb
    ask query_script_gate query_scheduler_gate query_fixed_gate managed_job_count count_filtered_one
    count_filtered_two_and address_list_count lazy_id_exists state_contains_address remove_id
    script_is_exact scheduler_is_normal fixed_is_normal check_scripts check_schedulers check_fixed
    and_then normal_runtime_gate pause_words is_paused pause_found disable_scheduler_exact pause_all
    gc_fail_safe with_name shape_matches judge_shape lazy_candidate lazy_collect_cb
    collect_lazy_kind remove_lazy_verified decide_lazy process_lazy_kind mark_candidate
    mark_collect_cb verify_marks_cb collect_mark_kind_once collect_mark_loop collect_mark_kind
    verify_mark_ids_absent_once verify_mark_loop verify_mark_ids_absent decide_mark attempt_marks
    settle_marks process_mark_kind and_also scan_both process_lazy process_marks lazy_stage
    mark_stage budget_stage mutate finish run_gated gc_run_once wanted_scripts rendered_scripts
    collection_run replace_loop count_loop out_length replace_all mask_bits ipv4_mask put lan_head
    lan_open lan_close lan_or net_test put_nets lan_match_buffer lan_match_snippet has_if
    is_disabled member_of add_iface member_cb address_prefix keep_egress add_net address_of addr_cb
    log_level_rank log_enabled load_template placeholders replace_each render_one render_all
    script_files bundle_of is_usable query_lan renderer_build
ran-succeeds = refl

-- The gate passed: the rule without state was removed.
ran-removes : ran.1.lazy_removed ≡ 1
unfolding codes str_eq after_prefix starts_with c_string print_loop decimal skip_space read_digits
    signed_value number_at after_sign strtoul recv_words recv_sentence is_reply attr_of find_attr
    get_attr is_done is_trap is_fatal take_reply drain ros_command sleep fnv_step fnv_from fnv1a64
    hex_loop fingerprint_hex log_levels valid_log_level target_mode_name parse_target_mode
    accuracy_profile_name parse_accuracy_profile parse_unsigned_range parse_switch set_option
    save_target kind_name parse_kind split_at parse_prefix canonical_ip normalize_ip to_lower
    ends_dash valid_domain_label valid_labels strip_dots lower normalize_domain normalize_value
    match_prefix port_loop port_suffix_valid dev2_prefixes is_port_list match_dev2_port_list
    legacy_lists match_legacy_list match_adaptive_connection_mark attr_true id_vec_add matching_id
    collect_cb scan_words add_stat id_word collect_ids remove_ids_best_effort auto_rules
    disable_words is_enabled_auto enabled_auto_cb verify_words disable_rules disable_adaptive_mangle
    prod_names fixed_comments kind_eq mark_name state_name parse_port make_state_list word_chars
    scan_word scan_unsigned scan_literal lazy_state is_proto lazy_name parse_lazy_comment
    script_gate_cb scheduler_gate_cb fixed_gate_cb count_re_cb count_value count_only_cb id_find_cb
    ask query_script_gate query_scheduler_gate query_fixed_gate managed_job_count count_filtered_one
    count_filtered_two_and address_list_count lazy_id_exists state_contains_address remove_id
    script_is_exact scheduler_is_normal fixed_is_normal check_scripts check_schedulers check_fixed
    and_then normal_runtime_gate pause_words is_paused pause_found disable_scheduler_exact pause_all
    gc_fail_safe with_name shape_matches judge_shape lazy_candidate lazy_collect_cb
    collect_lazy_kind remove_lazy_verified decide_lazy process_lazy_kind mark_candidate
    mark_collect_cb verify_marks_cb collect_mark_kind_once collect_mark_loop collect_mark_kind
    verify_mark_ids_absent_once verify_mark_loop verify_mark_ids_absent decide_mark attempt_marks
    settle_marks process_mark_kind and_also scan_both process_lazy process_marks lazy_stage
    mark_stage budget_stage mutate finish run_gated gc_run_once wanted_scripts rendered_scripts
    collection_run replace_loop count_loop out_length replace_all mask_bits ipv4_mask put lan_head
    lan_open lan_close lan_or net_test put_nets lan_match_buffer lan_match_snippet has_if
    is_disabled member_of add_iface member_cb address_prefix keep_egress add_net address_of addr_cb
    log_level_rank log_enabled load_template placeholders replace_each render_one render_all
    script_files bundle_of is_usable query_lan renderer_build
ran-removes = refl

collection_run-Bounded_example :
    Bounded ran.1 rendering ran.2
    × ((ran.1.skipped ≡ true) ⊎ Collected (rendered_scripts one_byte cfg) rendering ran.2)
collection_run-Bounded_example =
    collection_run-Bounded one_byte cfg rendering ran.2 ran.0 ran.1 refl ran-succeeds

collection_run-Owned_example :
    Issued IsGcCommand 0 rendering ran.2 ⊎ Owned (rendered_scripts one_byte cfg) rendering
collection_run-Owned_example = collection_run-Owned one_byte cfg rendering

abbrev refused : ℤ × GcStats × Session (with_lan no_schedulers)
refused = collection_run one_byte cfg rendering_refused

refused-fails : is_neg refused.0 ≡ true
unfolding codes str_eq after_prefix starts_with c_string print_loop decimal skip_space read_digits
    signed_value number_at after_sign strtoul recv_words recv_sentence is_reply attr_of find_attr
    get_attr is_done is_trap is_fatal take_reply drain ros_command sleep fnv_step fnv_from fnv1a64
    hex_loop fingerprint_hex log_levels valid_log_level target_mode_name parse_target_mode
    accuracy_profile_name parse_accuracy_profile parse_unsigned_range parse_switch set_option
    save_target kind_name parse_kind split_at parse_prefix canonical_ip normalize_ip to_lower
    ends_dash valid_domain_label valid_labels strip_dots lower normalize_domain normalize_value
    match_prefix port_loop port_suffix_valid dev2_prefixes is_port_list match_dev2_port_list
    legacy_lists match_legacy_list match_adaptive_connection_mark attr_true id_vec_add matching_id
    collect_cb scan_words add_stat id_word collect_ids remove_ids_best_effort auto_rules
    disable_words is_enabled_auto enabled_auto_cb verify_words disable_rules disable_adaptive_mangle
    prod_names fixed_comments kind_eq mark_name state_name parse_port make_state_list word_chars
    scan_word scan_unsigned scan_literal lazy_state is_proto lazy_name parse_lazy_comment
    script_gate_cb scheduler_gate_cb fixed_gate_cb count_re_cb count_value count_only_cb id_find_cb
    ask query_script_gate query_scheduler_gate query_fixed_gate managed_job_count count_filtered_one
    count_filtered_two_and address_list_count lazy_id_exists state_contains_address remove_id
    script_is_exact scheduler_is_normal fixed_is_normal check_scripts check_schedulers check_fixed
    and_then normal_runtime_gate pause_words is_paused pause_found disable_scheduler_exact pause_all
    gc_fail_safe with_name shape_matches judge_shape lazy_candidate lazy_collect_cb
    collect_lazy_kind remove_lazy_verified decide_lazy process_lazy_kind mark_candidate
    mark_collect_cb verify_marks_cb collect_mark_kind_once collect_mark_loop collect_mark_kind
    verify_mark_ids_absent_once verify_mark_loop verify_mark_ids_absent decide_mark attempt_marks
    settle_marks process_mark_kind and_also scan_both process_lazy process_marks lazy_stage
    mark_stage budget_stage mutate finish run_gated gc_run_once wanted_scripts rendered_scripts
    collection_run replace_loop count_loop out_length replace_all mask_bits ipv4_mask put lan_head
    lan_open lan_close lan_or net_test put_nets lan_match_buffer lan_match_snippet has_if
    is_disabled member_of add_iface member_cb address_prefix keep_egress add_net address_of addr_cb
    log_level_rank log_enabled load_template placeholders replace_each render_one render_all
    script_files bundle_of is_usable query_lan renderer_build
refused-fails = refl

collection_run-FailedSafe_example : FailedSafe rendering_refused refused.2
collection_run-FailedSafe_example =
    collection_run-FailedSafe one_byte cfg rendering_refused refused.2 refused.0 refused.1 refl
      refused-fails
