-- ===== src/Direct/Sync.antt =====
-- `direct_sync` of src/direct.c and the rules and entries that it adds.
pub mod Effects
pub mod Adds
pub mod Exact
pub mod Succeeds
use susanin.Prelude.{ℕ, ◌+◌, Bool, List, [], ◌∷◌, ◌++◌, Option, none, some, ltb, if◌then◌else◌}
use susanin.Prelude.Int.{ℤ, pos, minus_one, is_neg}
use susanin.Prelude.Text.{Text, codes, copy_to}
use susanin.Prelude.Decimal.{is_empty}
use susanin.Ros.Session.{Router, Session, ros_command}
use susanin.Config.Options.{Settings}
use susanin.Direct.Value.{DirectKind, ip, domain}
use susanin.Direct.Database.{Entry, Db, db_load}
use susanin.Direct.Collect.{
  list, comment_prefix, comment_exact, Removal, first_auto_cb, remove_matching,
}

abbrev pub listed_addresses : Removal
listed_addresses = record {
  print_cmd = codes "/ip/firewall/address-list/print";
  remove_cmd = codes "/ip/firewall/address-list/remove";
  proplist = codes ".id,list";
  mode = list;
  match = codes "vpn_direct";
}

abbrev pub forwarded_names : Removal
forwarded_names = record {
  print_cmd = codes "/ip/dns/static/print";
  remove_cmd = codes "/ip/dns/static/remove";
  proplist = codes ".id,comment";
  mode = comment_prefix;
  match = codes "SUSANIN: VPN Direct domain ";
}

abbrev pub bypass_rules : Removal
bypass_rules = record {
  print_cmd = codes "/ip/firewall/mangle/print";
  remove_cmd = codes "/ip/firewall/mangle/remove";
  proplist = codes ".id,comment";
  mode = comment_exact;
  match = codes "SUSANIN: VPN Direct bypass";
}

abbrev pub bypass_scan_words : List Text
bypass_scan_words = codes "/ip/firewall/mangle/print" ∷ codes "=.proplist=.id,comment,chain" ∷ []

-- The words of the bypass rule; the last one only when there is a rule to go in front of.
unfoldable pub bypass_words : Settings → Option Text → List Text
unfolding codes
bypass_words cfg first =
    codes "/ip/firewall/mangle/add"
    ∷ codes "=chain=prerouting"
    ∷ codes "=action=mark-routing"
    ∷ copy_to 192 (codes "=in-interface-list=" ++ cfg.lan)
    ∷ codes "=dst-address-list=vpn_direct"
    ∷ copy_to 192 (codes "=new-routing-mark=" ++ cfg.table)
    ∷ codes "=passthrough=no"
    ∷ codes "=dst-address-type=!local"
    ∷ codes "=comment=SUSANIN: VPN Direct bypass"
    ∷ codes "=disabled=no"
    ∷ (elim first [ none ↦ [] | some id ↦ copy_to 96 (codes "=place-before=" ++ id) ∷ [] ])

unfoldable pub ip_words : Text → List Text
unfolding codes
ip_words value =
    codes "/ip/firewall/address-list/add"
    ∷ codes "=list=vpn_direct"
    ∷ copy_to 320 (codes "=address=" ++ value)
    ∷ copy_to 384 (codes "=comment=SUSANIN: VPN Direct IP " ++ value)
    ∷ []

unfoldable pub domain_words : Text → List Text
unfolding codes
domain_words value =
    codes "/ip/dns/static/add"
    ∷ copy_to 320 (codes "=name=" ++ value)
    ∷ codes "=type=FWD"
    ∷ codes "=match-subdomain=yes"
    ∷ codes "=address-list=vpn_direct"
    ∷ codes "=disabled=no"
    ∷ copy_to 384 (codes "=comment=SUSANIN: VPN Direct domain " ++ value)
    ∷ []

abbrev pub flush_words : List Text
flush_words = codes "/ip/dns/cache/flush" ∷ []

-- The words that add an entry of a kind, and what the entry counts as a domain.
unfoldable pub entry_words : DirectKind → Text → List Text
unfolding ip_words domain_words
entry_words ip value = ip_words value
entry_words domain value = domain_words value

unfoldable pub domains_of : DirectKind → ℕ
domains_of ip = 0
domains_of domain = 1

module _ {R : Router} where
  unfoldable pub add_bypass_rule : Session R → Settings → ℤ × Session R
  unfolding bypass_words
  add_bypass_rule s cfg =
      let (rc, first, s1) = ros_command s bypass_scan_words (some first_auto_cb) none in
      let (rc', _, s2) = ros_command s1 (bypass_words cfg first) none tt in
      if is_empty cfg.table
      then (minus_one, s)
      else if is_neg rc
      then (minus_one, s1)
      else (rc', s2)

  -- `add_ip_entry` and `add_domain_entry`
  unfoldable pub add_entry : Session R → Entry → ℤ × Session R
  unfolding entry_words
  add_entry s e = let (rc, _, s') = ros_command s (entry_words e.kind e.value) none tt in (rc, s')

  -- The loop over the entries: how many of them were domains, or none when one could not be added.
  unfoldable pub add_entries : Db → ℕ → Session R → Option ℕ × Session R
  unfolding domains_of add_entry
  add_entries [] domains s = (some domains, s)
  add_entries (e ∷ db) domains s =
      let (rc, s') = add_entry s e in
      let more = add_entries db (domains + domains_of e.kind) s' in
      if is_neg rc then (none, s') else more

  -- The three removals.
  unfoldable pub clear : Session R → ℤ × Session R
  unfolding remove_matching
  clear s =
      let (rc1, s1) = remove_matching s listed_addresses in
      let (rc2, s2) = remove_matching s1 forwarded_names in
      let (rc3, s3) = remove_matching s2 bypass_rules in
      if is_neg rc1
      then (minus_one, s1)
      else if is_neg rc2
      then (minus_one, s2)
      else if is_neg rc3
      then (minus_one, s3)
      else (pos 0, s3)

  -- The cache is flushed when a domain was added.
  unfoldable pub flush : ℕ → Session R → Session R
  flush domains s = if ltb 0 domains then (ros_command s flush_words none tt).2 else s

  -- The bypass rule, the entries and the flush.
  unfoldable pub install : Session R → Settings → Db → ℤ × Session R
  unfolding add_bypass_rule add_entries flush
  install s cfg db =
      let (rc, s1) = add_bypass_rule s cfg in
      let (added, s2) = add_entries db 0 s1 in
      if is_neg rc
      then (minus_one, s1)
      else (elim added [ none ↦ (minus_one, s2) | some domains ↦ (pos 0, flush domains s2) ])

  -- `direct_sync` behind its `db_load`.
  unfoldable pub sync_db : Session R → Settings → Db → ℤ × Session R
  unfolding clear install
  sync_db s cfg [] = clear s
  sync_db s cfg (e ∷ db) =
      let (rc, s') = clear s in if is_neg rc then (minus_one, s') else install s' cfg (e ∷ db)

  -- `direct_sync`, with the bytes of the database file.
  unfoldable pub direct_sync : Session R → Settings → Option Text → ℤ × Session R
  unfolding sync_db
  direct_sync s cfg file = elim (db_load file) [
    | none ↦ (minus_one, s)
    | some db ↦ sync_db s cfg db
  ]
