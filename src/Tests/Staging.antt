-- ===== src/Tests/Staging.antt =====
-- Runs of src/stage.c on a router with a script table.
use susanin.Prelude.{◌≡◌, refl, false, Option, some, [], ◌∷◌}
use susanin.Prelude.Int.{ℤ, is_neg}
use susanin.Config.Options.{Settings}
use susanin.Config.Load.{defaults}
use susanin.Tests.World.{with_lan}
use susanin.Tests.Tables.{script_table, staged_before}
use susanin.Stage.Steps.{Steps, stage-Steps}
use susanin.Stage.Gone.{AllGone, stage_clean_run_good}
use susanin.Stage.Staged.{StageDone, stage_run_good}
use susanin.Prelude.Text.{Text, codes, str_eq, after_prefix, starts_with, c_string}
use susanin.Prelude.Decimal.{
  print_loop, decimal, skip_space, read_digits, signed_value, number_at, after_sign, strtoul,
}
use susanin.Ros.Sentence.{recv_words, recv_sentence, is_reply, attr_of, find_attr, get_attr}
use susanin.Ros.Command.{is_done, is_trap, is_fatal, take_reply, drain}
use susanin.Ros.Session.{Session, has_no_words, ros_command, sleep, ros_close, ros_login}
use susanin.Fingerprint.{fnv_step, fnv_from, fnv1a64, hex_loop, fingerprint_hex}
use susanin.Config.Options.{
  log_levels, valid_log_level, target_mode_name, parse_target_mode, accuracy_profile_name,
  parse_accuracy_profile, parse_unsigned_range, parse_switch, set_option, save_target,
}
use susanin.StateCleanup.Match.{
  match_prefix, port_loop, port_suffix_valid, dev2_prefixes, is_port_list, match_dev2_port_list,
  legacy_lists, match_legacy_list, match_adaptive_connection_mark, attr_true,
}
use susanin.Direct.Value.{
  kind_name, parse_kind, split_at, parse_prefix, canonical_ip, normalize_ip, to_lower, ends_dash,
  valid_domain_label, valid_labels, strip_dots, lower, normalize_domain, normalize_value,
}
use susanin.Renderer.Replace.{replace_loop, count_loop, out_length, replace_all}
use susanin.Renderer.Snippet.{
  mask_bits, ipv4_mask, put, lan_head, lan_open, lan_close, lan_or, net_test, put_nets,
  lan_match_buffer, lan_match_snippet,
}
use susanin.Renderer.Build.{
  has_if, is_disabled, member_of, add_iface, member_cb, address_prefix, keep_egress, add_net,
  address_of, addr_cb, log_level_rank, log_enabled, load_template, placeholders, replace_each,
  render_one, render_all, script_files, bundle_of, is_usable, query_lan, renderer_build,
}
use susanin.Stage.{
  stage_names, source_of, object_of, lookup_scan_cb, stage_comment, is_staged, lookup_name_exact,
  lookup_loop, lookup_with_retry, remove_id, verify_gone, remove_attempt, remove_loop,
  remove_name_exact, add_stage, clean_one, clean_loop, stage_clean_run, pre_clean, read_back,
  stage_one, stage_loop, roll_back, stage_bundle, stage_run,
}

abbrev cfg : Settings
cfg = record defaults { egress = codes "wg0"; table = codes "vpn" }

-- Every template holds one byte.
abbrev one_byte : Text → Option Text
one_byte path = some (codes "x")

abbrev staged : ℤ × Session (with_lan script_table)
staged = stage_run one_byte cfg staged_before

staged-succeeds : is_neg staged.0 ≡ false
unfolding codes str_eq after_prefix starts_with c_string print_loop decimal skip_space read_digits
    signed_value number_at after_sign strtoul recv_words recv_sentence is_reply attr_of find_attr
    get_attr is_done is_trap is_fatal take_reply drain has_no_words ros_command sleep ros_close
    ros_login fnv_step fnv_from fnv1a64 hex_loop fingerprint_hex log_levels valid_log_level
    target_mode_name parse_target_mode accuracy_profile_name parse_accuracy_profile
    parse_unsigned_range parse_switch set_option save_target match_prefix port_loop
    port_suffix_valid dev2_prefixes is_port_list match_dev2_port_list legacy_lists match_legacy_list
    match_adaptive_connection_mark attr_true kind_name parse_kind split_at parse_prefix canonical_ip
    normalize_ip to_lower ends_dash valid_domain_label valid_labels strip_dots lower
    normalize_domain normalize_value replace_loop count_loop out_length replace_all mask_bits
    ipv4_mask put lan_head lan_open lan_close lan_or net_test put_nets lan_match_buffer
    lan_match_snippet has_if is_disabled member_of add_iface member_cb address_prefix keep_egress
    add_net address_of addr_cb log_level_rank log_enabled load_template placeholders replace_each
    render_one render_all script_files bundle_of is_usable query_lan renderer_build stage_names
    source_of object_of lookup_scan_cb stage_comment is_staged lookup_name_exact lookup_loop
    lookup_with_retry remove_id verify_gone remove_attempt remove_loop remove_name_exact add_stage
    clean_one clean_loop stage_clean_run pre_clean read_back stage_one stage_loop roll_back
    stage_bundle stage_run
staged-succeeds = refl

-- The old object is gone, the four scripts are there, and the production script is as it was.
staged-world :
    staged.1.world
    ≡ (codes "susanin-stage-judge", codes "x")
      ∷ (codes "susanin-stage-detect", codes "x")
      ∷ (codes "susanin-stage-fast", codes "x")
      ∷ (codes "susanin-stage-health", codes "x")
      ∷ (codes "auto-awg-fast", codes "production")
      ∷ []
unfolding codes str_eq after_prefix starts_with c_string print_loop decimal skip_space read_digits
    signed_value number_at after_sign strtoul recv_words recv_sentence is_reply attr_of find_attr
    get_attr is_done is_trap is_fatal take_reply drain has_no_words ros_command sleep ros_close
    ros_login fnv_step fnv_from fnv1a64 hex_loop fingerprint_hex log_levels valid_log_level
    target_mode_name parse_target_mode accuracy_profile_name parse_accuracy_profile
    parse_unsigned_range parse_switch set_option save_target match_prefix port_loop
    port_suffix_valid dev2_prefixes is_port_list match_dev2_port_list legacy_lists match_legacy_list
    match_adaptive_connection_mark attr_true kind_name parse_kind split_at parse_prefix canonical_ip
    normalize_ip to_lower ends_dash valid_domain_label valid_labels strip_dots lower
    normalize_domain normalize_value replace_loop count_loop out_length replace_all mask_bits
    ipv4_mask put lan_head lan_open lan_close lan_or net_test put_nets lan_match_buffer
    lan_match_snippet has_if is_disabled member_of add_iface member_cb address_prefix keep_egress
    add_net address_of addr_cb log_level_rank log_enabled load_template placeholders replace_each
    render_one render_all script_files bundle_of is_usable query_lan renderer_build stage_names
    source_of object_of lookup_scan_cb stage_comment is_staged lookup_name_exact lookup_loop
    lookup_with_retry remove_id verify_gone remove_attempt remove_loop remove_name_exact add_stage
    clean_one clean_loop stage_clean_run pre_clean read_back stage_one stage_loop roll_back
    stage_bundle stage_run
staged-world = refl

stage_run_good_example : StageDone one_byte cfg staged_before staged.1
stage_run_good_example = stage_run_good one_byte cfg staged_before staged-succeeds

abbrev cleaned : ℤ × Session (with_lan script_table)
cleaned = stage_clean_run staged.1

cleaned-succeeds : is_neg cleaned.0 ≡ false
unfolding codes str_eq after_prefix starts_with c_string print_loop decimal skip_space read_digits
    signed_value number_at after_sign strtoul recv_words recv_sentence is_reply attr_of find_attr
    get_attr is_done is_trap is_fatal take_reply drain has_no_words ros_command sleep ros_close
    ros_login fnv_step fnv_from fnv1a64 hex_loop fingerprint_hex log_levels valid_log_level
    target_mode_name parse_target_mode accuracy_profile_name parse_accuracy_profile
    parse_unsigned_range parse_switch set_option save_target match_prefix port_loop
    port_suffix_valid dev2_prefixes is_port_list match_dev2_port_list legacy_lists match_legacy_list
    match_adaptive_connection_mark attr_true kind_name parse_kind split_at parse_prefix canonical_ip
    normalize_ip to_lower ends_dash valid_domain_label valid_labels strip_dots lower
    normalize_domain normalize_value replace_loop count_loop out_length replace_all mask_bits
    ipv4_mask put lan_head lan_open lan_close lan_or net_test put_nets lan_match_buffer
    lan_match_snippet has_if is_disabled member_of add_iface member_cb address_prefix keep_egress
    add_net address_of addr_cb log_level_rank log_enabled load_template placeholders replace_each
    render_one render_all script_files bundle_of is_usable query_lan renderer_build stage_names
    source_of object_of lookup_scan_cb stage_comment is_staged lookup_name_exact lookup_loop
    lookup_with_retry remove_id verify_gone remove_attempt remove_loop remove_name_exact add_stage
    clean_one clean_loop stage_clean_run pre_clean read_back stage_one stage_loop roll_back
    stage_bundle stage_run
cleaned-succeeds = refl

stage_clean_run_good_example : AllGone stage_names staged.1 cleaned.1
stage_clean_run_good_example = stage_clean_run_good staged.1 cleaned-succeeds

stage-Steps_example :
    Steps staged_before (stage_run one_byte cfg staged_before).1
    × Steps staged_before (stage_clean_run staged_before).1
stage-Steps_example = stage-Steps one_byte cfg staged_before
