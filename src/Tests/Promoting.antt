-- ===== src/Tests/Promoting.antt =====
-- A promotion of src/promote.c on a router with staged scripts.
use susanin.Prelude.{◌≡◌, refl, Option, some, [], ◌∷◌}
use susanin.Prelude.Int.{ℤ}
use susanin.Config.Load.{defaults}
use susanin.Tests.World.{with_lan}
use susanin.Tests.Tables.{promotable, ready_to_promote}
use susanin.Promote.BackedUp.{BackedUp}
use susanin.Promote.Rollback.{rollback_run}
use susanin.Prelude.Text.{Text, codes, str_eq, after_prefix, starts_with, c_string}
use susanin.Prelude.Decimal.{
  print_loop, decimal, skip_space, read_digits, signed_value, number_at, after_sign, strtoul,
}
use susanin.Ros.Sentence.{recv_words, recv_sentence, is_reply, attr_of, find_attr, get_attr}
use susanin.Ros.Command.{is_done, is_trap, is_fatal, take_reply, drain}
use susanin.Ros.Session.{Session, has_no_words, ros_command, sleep, ros_close, ros_login}
use susanin.Fingerprint.{fnv_step, fnv_from, fnv1a64, hex_loop, fingerprint_hex}
use susanin.Config.Options.{
  Settings, log_levels, valid_log_level, target_mode_name, parse_target_mode, accuracy_profile_name,
  parse_accuracy_profile, parse_unsigned_range, parse_switch, set_option, save_target,
}
use susanin.Direct.Value.{
  kind_name, parse_kind, split_at, parse_prefix, canonical_ip, normalize_ip, to_lower, ends_dash,
  valid_domain_label, valid_labels, strip_dots, lower, normalize_domain, normalize_value,
}
use susanin.StateCleanup.Match.{
  match_prefix, port_loop, port_suffix_valid, dev2_prefixes, is_port_list, match_dev2_port_list,
  legacy_lists, match_legacy_list, match_adaptive_connection_mark, attr_true,
}
use susanin.StateCleanup.Scan.{
  id_vec_add, matching_id, collect_cb, scan_words, add_stat, id_word, collect_ids,
  remove_ids_best_effort,
}
use susanin.StateCleanup.Matching.{cleanup_matching}
use susanin.StateCleanup.Disable.{
  auto_rules, disable_words, is_enabled_auto, enabled_auto_cb, verify_words, disable_rules,
  disable_adaptive_mangle,
}
use susanin.StateCleanup.Entry.{
  legacy_target, marks_target, port_target, lazy_target, cleanup_legacy_state, cleanup_dev2_runtime,
}
use susanin.Renderer.Replace.{replace_loop, count_loop, out_length, replace_all}
use susanin.Renderer.Snippet.{
  mask_bits, ipv4_mask, put, lan_head, lan_open, lan_close, lan_or, net_test, put_nets,
  lan_match_buffer, lan_match_snippet,
}
use susanin.Renderer.Build.{
  has_if, is_disabled, member_of, add_iface, member_cb, address_prefix, keep_egress, add_net,
  address_of, addr_cb, log_level_rank, log_enabled, load_template, placeholders, replace_each,
  render_one, render_all, script_files, bundle_of, is_usable, query_lan, renderer_build,
}
use susanin.Promote.{
  managed_names, named_id, attr_text, script_lookup_cb, scheduler_lookup_cb, backup_comment,
  is_same, jobs_cb, script_lookup, script_loop, script_lookup_retry, scheduler_lookup, send,
  set_scheduler_disabled, set_script_source, remove_script_name, add_inert_script, verify_source,
  verify_stage, idle_loop, wait_jobs_idle, restore_scheduler_states, create_backup, create_backups,
  put_source, restore_sources, take_snapshot, pause_schedulers, put_sources, remove_stages, commit,
  replace, pause_and_replace, back_up_and_replace, promote_bundle, promote_run, promote_dry_run,
}

abbrev cfg : Settings
cfg = record defaults { egress = codes "wg0"; table = codes "vpn" }

-- Every template holds one byte.
abbrev one_byte : Text → Option Text
one_byte path = some (codes "x")

abbrev promoted : ℤ × Session (with_lan promotable)
promoted = promote_run one_byte cfg ready_to_promote

-- The production scripts are the rendered ones, the old ones are kept, and the staged ones are gone.
promoted-world :
    promoted.1.world
    ≡ (codes "susanin-backup-judge", codes "o")
      ∷ (codes "susanin-backup-detect", codes "o")
      ∷ (codes "susanin-backup-fast", codes "o")
      ∷ (codes "susanin-backup-health", codes "o")
      ∷ (codes "auto-awg-health", codes "x")
      ∷ (codes "auto-awg-fast", codes "x")
      ∷ (codes "auto-awg-detect", codes "x")
      ∷ (codes "auto-awg-judge", codes "x")
      ∷ []
unfolding codes str_eq after_prefix starts_with c_string print_loop decimal skip_space read_digits
    signed_value number_at after_sign strtoul recv_words recv_sentence is_reply attr_of find_attr
    get_attr is_done is_trap is_fatal take_reply drain has_no_words ros_command sleep ros_close
    ros_login fnv_step fnv_from fnv1a64 hex_loop fingerprint_hex log_levels valid_log_level
    target_mode_name parse_target_mode accuracy_profile_name parse_accuracy_profile
    parse_unsigned_range parse_switch set_option save_target kind_name parse_kind split_at
    parse_prefix canonical_ip normalize_ip to_lower ends_dash valid_domain_label valid_labels
    strip_dots lower normalize_domain normalize_value match_prefix port_loop port_suffix_valid
    dev2_prefixes is_port_list match_dev2_port_list legacy_lists match_legacy_list
    match_adaptive_connection_mark attr_true id_vec_add matching_id collect_cb scan_words add_stat
    id_word collect_ids remove_ids_best_effort cleanup_matching auto_rules disable_words
    is_enabled_auto enabled_auto_cb verify_words disable_rules disable_adaptive_mangle legacy_target
    marks_target port_target lazy_target cleanup_legacy_state cleanup_dev2_runtime replace_loop
    count_loop out_length replace_all mask_bits ipv4_mask put lan_head lan_open lan_close lan_or
    net_test put_nets lan_match_buffer lan_match_snippet has_if is_disabled member_of add_iface
    member_cb address_prefix keep_egress add_net address_of addr_cb log_level_rank log_enabled
    load_template placeholders replace_each render_one render_all script_files bundle_of is_usable
    query_lan renderer_build managed_names named_id attr_text script_lookup_cb scheduler_lookup_cb
    backup_comment is_same jobs_cb script_lookup script_loop script_lookup_retry scheduler_lookup
    send set_scheduler_disabled set_script_source remove_script_name add_inert_script verify_source
    verify_stage idle_loop wait_jobs_idle restore_scheduler_states create_backup create_backups
    put_source restore_sources take_snapshot pause_schedulers put_sources remove_stages commit
    replace pause_and_replace back_up_and_replace promote_bundle promote_run promote_dry_run
promoted-world = refl

abbrev rolled_back : ℤ × Session (with_lan promotable)
rolled_back = rollback_run promoted.1
