-- ===== src/Direct/Sync/Effects.antt =====
-- About `direct_sync` of src/direct.c: what it sends.
use susanin.Prelude.{
  ◌≡◌, refl, false, List, [], ◌∷◌, Option, none, some, Bool-cases, Option-cases, inl, inr,
}
use susanin.Prelude.{ltb, ℕ, ◌+◌}
use susanin.Prelude.Int.{is_neg}
use susanin.Prelude.Text.{Text, codes, str_eq}
use susanin.Prelude.Decimal.{is_empty}
use susanin.Ros.Session.{Router, Session, ros_command}
use susanin.Ros.Session.Log.{
  SentOnly, SentOnly-refl, SentOnly-trans, SentOnly-ros_command, is_change, ends_with,
}
use susanin.Config.Options.{Settings}
use susanin.Direct.Value.{DirectKind}
use susanin.Direct.Database.{Db, db_load}
use susanin.Direct.Collect.{
  Removal, print_words, remove_words, id_collect_cb, first_auto_cb, remove_each, remove_matching,
}
use susanin.Direct.Sync.{
  listed_addresses, forwarded_names, bypass_rules, bypass_scan_words, bypass_words, entry_words,
  flush_words, domains_of, add_bypass_rule, add_entry, add_entries, clear, flush, install, sync_db,
  direct_sync,
}

-- What a synchronisation with these settings may send.
pub data IsDirect (cfg : Settings) : List Text → Type 0 where
  asks : {words : List Text} → is_change words ≡ false → IsDirect cfg words
  unlists : (id : Text) → IsDirect cfg (remove_words listed_addresses id)
  unforwards : (id : Text) → IsDirect cfg (remove_words forwarded_names id)
  unbypasses : (id : Text) → IsDirect cfg (remove_words bypass_rules id)
  bypasses : (first : Option Text) → IsDirect cfg (bypass_words cfg first)
  adds : (kind : DirectKind) (value : Text) → IsDirect cfg (entry_words kind value)
  flushes : IsDirect cfg flush_words

module _ {R : Router} (P : List Text → Type 0) where
  remove_each-SentOnly :
      (r : Removal)
      → ((id : Text) → P (remove_words r id))
      → (ids : List Text) (s : Session R) → SentOnly P s (remove_each r ids s)
  unfolding remove_each
  remove_each-SentOnly r allowed [] s = SentOnly-refl P s
  remove_each-SentOnly r allowed (id ∷ ids) s =
      SentOnly-trans P (SentOnly-ros_command P s (remove_words r id) none tt (allowed id))
        (remove_each-SentOnly r allowed ids _)

  remove_matching-SentOnly :
      (r : Removal)
      → P (print_words r)
      → ((id : Text) → P (remove_words r id))
      → (s : Session R) → SentOnly P s (remove_matching s r).1
  unfolding remove_matching
  remove_matching-SentOnly r asked allowed s =
      let call = ros_command s (print_words r) (some (id_collect_cb r.mode r.match)) [] in
      let sent =
        SentOnly-ros_command P s (print_words r) (some (id_collect_cb r.mode r.match)) [] asked in
      elim (Bool-cases (is_neg call.0)) [
        | inl e ↦ rw (e, remove_matching) sent
        | inr e ↦
            rw (e, remove_matching)
              (SentOnly-trans P sent (remove_each-SentOnly r allowed call.1 call.2))
      ]

  pub clear-SentOnly :
      P (print_words listed_addresses)
      → P (print_words forwarded_names)
      → P (print_words bypass_rules)
      → ((id : Text) → P (remove_words listed_addresses id))
      → ((id : Text) → P (remove_words forwarded_names id))
      → ((id : Text) → P (remove_words bypass_rules id))
      → (s : Session R) → SentOnly P s (clear s).1
  unfolding clear
  clear-SentOnly p1 p2 p3 r1 r2 r3 s =
      let (rc1, s1) = remove_matching s listed_addresses in
      let (rc2, s2) = remove_matching s1 forwarded_names in
      let (rc3, s3) = remove_matching s2 bypass_rules in
      let one = remove_matching-SentOnly listed_addresses p1 r1 s in
      let two = SentOnly-trans P one (remove_matching-SentOnly forwarded_names p2 r2 s1) in
      let three = SentOnly-trans P two (remove_matching-SentOnly bypass_rules p3 r3 s2) in
      elim (Bool-cases (is_neg rc1)) [
        | inl e ↦ rw (e, clear) one
        | inr e ↦ elim (Bool-cases (is_neg rc2)) [
          | inl f ↦ rw (e, clear) (rw f two)
          | inr f ↦ elim (Bool-cases (is_neg rc3)) [
            | inl g ↦ rw (e, clear) (rw f (rw g three))
            | inr g ↦ rw (e, clear) (rw f (rw g three))
          ]
        ]
      ]

module _ {R : Router} (cfg : Settings) where
  abbrev Only : Session R → Session R → Type 0
  Only = SentOnly (IsDirect cfg)

  clear-Only : (s : Session R) → Only s (clear s).1
  unfolding print_words is_change ends_with codes str_eq
  clear-Only =
      clear-SentOnly (IsDirect cfg) (asks refl) (asks refl) (asks refl) (λ id. unlists id)
        (λ id. unforwards id) (λ id. unbypasses id)

  add_bypass_rule-Only : (s : Session R) → Only s (add_bypass_rule s cfg).1
  unfolding add_bypass_rule is_change ends_with codes str_eq
  add_bypass_rule-Only s =
      let scan = ros_command s bypass_scan_words (some first_auto_cb) none in
      let scanned =
        SentOnly-ros_command (IsDirect cfg) s bypass_scan_words (some first_auto_cb) none
          (asks refl) in
      elim (Bool-cases (is_empty cfg.table)) [
        | inl e ↦ rw (e, add_bypass_rule) (SentOnly-refl (IsDirect cfg) s)
        | inr e ↦ elim (Bool-cases (is_neg scan.0)) [
          | inl f ↦ rw (e, add_bypass_rule) (rw f scanned)
          | inr f ↦
              rw (e, add_bypass_rule)
                (rw f (
                  SentOnly-trans (IsDirect cfg) scanned (
                    SentOnly-ros_command (IsDirect cfg) scan.2 (bypass_words cfg scan.1) none tt
                      (bypasses scan.1))))
        ]
      ]

  add_entries-Only : (db : Db) (domains : ℕ) (s : Session R) → Only s (add_entries db domains s).1
  unfolding add_entries add_entry
  add_entries-Only [] domains s = SentOnly-refl (IsDirect cfg) s
  add_entries-Only (e ∷ db) domains s =
      let call = ros_command s (entry_words e.kind e.value) none tt in
      let sent =
        SentOnly-ros_command (IsDirect cfg) s (entry_words e.kind e.value) none tt
          (adds e.kind e.value) in
      elim (Bool-cases (is_neg call.0)) [
        | inl n ↦ rw (n, add_entries) sent
        | inr n ↦
            rw (n, add_entries)
              (SentOnly-trans (IsDirect cfg) sent
                (add_entries-Only db (domains + domains_of e.kind) call.2))
      ]

  flush-Only : (domains : ℕ) (s : Session R) → Only s (flush domains s)
  unfolding flush
  flush-Only domains s = elim (Bool-cases (ltb 0 domains)) [
    | inl e ↦ rw (e, flush) (SentOnly-ros_command (IsDirect cfg) s flush_words none tt flushes)
    | inr e ↦ rw (e, flush) (SentOnly-refl (IsDirect cfg) s)
  ]

  install-Only : (s : Session R) (db : Db) → Only s (install s cfg db).1
  unfolding install
  install-Only s db =
      let (rc, s1) = add_bypass_rule s cfg in
      let bypass = add_bypass_rule-Only s in
      let added = SentOnly-trans (IsDirect cfg) bypass (add_entries-Only db 0 s1) in
      elim (Bool-cases (is_neg rc)) [
        | inl e ↦ rw (e, install) bypass
        | inr e ↦ elim (Option-cases (add_entries db 0 s1).0) [
          | inl n ↦ rw (e, install) (rw n added)
          | inr (domains, n) ↦
              rw (e, install)
                (rw n (
                  SentOnly-trans (IsDirect cfg) added (flush-Only domains (add_entries db 0 s1).1)))
        ]
      ]

  sync_db-Only : (s : Session R) (db : Db) → Only s (sync_db s cfg db).1
  unfolding sync_db
  sync_db-Only s [] = clear-Only s
  sync_db-Only s (e ∷ db) = elim (Bool-cases (is_neg (clear s).0)) [
    | inl n ↦ rw (n, sync_db) (clear-Only s)
    | inr n ↦
        rw (n, sync_db)
          (SentOnly-trans (IsDirect cfg) (clear-Only s) (install-Only (clear s).1 (e ∷ db)))
  ]

  -- Whatever happens, a synchronisation sends only queries, removals by id from its three menus, the
  -- bypass rule, additions to its list, and the flush of the cache.
  pub SentOnly-direct_sync :
      (s : Session R) (file : Option Text) → SentOnly (IsDirect cfg) s (direct_sync s cfg file).1
  unfolding direct_sync
  SentOnly-direct_sync s file = elim (Option-cases (db_load file)) [
    | inl e ↦ rw (e, direct_sync) (SentOnly-refl (IsDirect cfg) s)
    | inr (db, e) ↦ rw (e, direct_sync) (sync_db-Only s db)
  ]
