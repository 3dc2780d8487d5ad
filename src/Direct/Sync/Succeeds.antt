-- ===== src/Direct/Sync/Succeeds.antt =====
-- About `direct_sync` of src/direct.c on a router that answers every command without an error.
use susanin.Prelude.{ℕ, ◌+◌, ◌≡◌, refl, true, false, List, [], ◌∷◌, Option, none, some, arith}
use susanin.Prelude.Int.{ℤ, pos}
use susanin.Prelude.Text.{Text}
use susanin.Prelude.Decimal.{is_empty}
use susanin.Ros.Sentence.{Sentence}
use susanin.Ros.Command.{Callback, finished, is_done, is_trap, is_fatal, take_reply, drain}
use susanin.Ros.Session.{Router, Session, has_no_words, ros_command}
use susanin.Config.Options.{Settings}
use susanin.Direct.Value.{DirectKind, ip, domain}
use susanin.Direct.Database.{Entry, Db, db_load}
use susanin.Direct.Collect.{
  Removal, id_collect_cb, first_auto_cb, print_words, remove_words, remove_each, remove_matching,
}
use susanin.Direct.Sync.{
  listed_addresses, forwarded_names, bypass_rules, bypass_scan_words, bypass_words, ip_words,
  domain_words, entry_words, domains_of, add_bypass_rule, add_entry, add_entries, clear, install,
  sync_db, direct_sync,
}

-- An answer without an error: replies of which none is a trap, up to the `!done` that ends it.
pub data Answered : List Sentence → Type 0 where
  ends_here :
      {s : Sentence} → is_fatal s ≡ false → is_done s ≡ true → is_trap s ≡ false → Answered (s ∷ [])
  goes_on :
      {s : Sentence} {ss : List Sentence}
      → is_fatal s ≡ false
      → is_done s ≡ false
      → is_trap s ≡ false
      → Answered ss
      → Answered (s ∷ ss)

-- A session that waits for nothing.
pub record IsReady {R : Router} (s : Session R) : Type 0 where
  pub opened : s.is_open ≡ true
  pub nothing_pending : s.pending ≡ []

-- A command that succeeds, and leaves nothing unread.
record Accepted {R : Router} {C : Type 0} (r : ℤ × C × Session R) : Type 0 where
  good : r.0 ≡ pos 0
  ready : IsReady r.2

-- A callback, or none, that returns 0.
abbrev IsCalm : {C : Type 0} → Option (Callback C) → Type 0
IsCalm {C} cb =
    (s : Sentence) (ctx : C)
    → is_trap s ≡ false
    → take_reply cb s (pos 0) ctx ≡ (pos 0, (take_reply cb s (pos 0) ctx).1)

drain-Answered :
    {C : Type 0} (cb : Option (Callback C))
    → IsCalm cb
    → (ss : List Sentence) (ctx : C) → Answered ss
    → (ctx' : C) × (drain cb (pos 0) ctx ss ≡ finished (pos 0) ctx' [])
unfolding drain
drain-Answered cb calm [] ctx x = elim x [ ]
drain-Answered cb calm (s ∷ []) ctx (ends_here f d t) =
    ((take_reply cb s (pos 0) ctx).1, rw f (rw d (rw (calm s ctx t) refl)))
drain-Answered cb calm (s ∷ ss) ctx (goes_on f d t more) =
    let (ctx', e) = drain-Answered cb calm ss (take_reply cb s (pos 0) ctx).1 more in
    (ctx', rw f (rw d (rw (calm s ctx t) e)))

id_collect_cb-IsCalm : (r : Removal) → IsCalm (some (id_collect_cb r.mode r.match))
unfolding take_reply id_collect_cb
id_collect_cb-IsCalm r s ids t = ground arith

first_auto_cb-IsCalm : IsCalm (some first_auto_cb)
unfolding take_reply first_auto_cb
first_auto_cb-IsCalm s first t = ground arith

none-IsCalm : {C : Type 0} → IsCalm {C = C} none
unfolding take_reply
none-IsCalm s ctx t = ground arith

has_words : (kind : DirectKind) (value : Text) → has_no_words (entry_words kind value) ≡ false
unfolding has_no_words entry_words ip_words domain_words
has_words ip value = refl
has_words domain value = refl

module _ {R : Router}
    (accepts : (w : R.World) (words : List Text) → Answered (R.exchange w words).1) where
  ros_command-Accepted :
      {C : Type 0} (s : Session R) (words : List Text) (cb : Option (Callback C)) (ctx : C)
      → IsReady s
      → has_no_words words ≡ false
      → IsCalm cb
      → Accepted (ros_command s words cb ctx)
  unfolding ros_command
  ros_command-Accepted s words cb ctx r e calm =
      let (ctx', drained) =
        drain-Answered cb calm (R.exchange s.world words).1 ctx (accepts s.world words) in
      rw (r.opened, e)
        (rw r.nothing_pending (
          rw drained
            (record { good = refl; ready = record { opened = refl; nothing_pending = refl } })))

  remove_each-IsReady :
      (r : Removal) (ids : List Text) (s : Session R) → IsReady s → IsReady (remove_each r ids s)
  unfolding remove_each remove_words has_no_words
  remove_each-IsReady r [] s ready = ready
  remove_each-IsReady r (id ∷ ids) s ready =
      remove_each-IsReady r ids _
        (ros_command-Accepted s (remove_words r id) none tt ready refl none-IsCalm).ready

  remove_matching-succeeds :
      (s : Session R) (r : Removal)
      → IsReady s
      → ((remove_matching s r).0 ≡ pos 0) × IsReady (remove_matching s r).1
  unfolding remove_matching print_words has_no_words
  remove_matching-succeeds s r ready =
      let a =
        ros_command-Accepted s (print_words r) (some (id_collect_cb r.mode r.match)) [] ready refl
          (id_collect_cb-IsCalm r) in
      rw (a.good, remove_matching)
        (
          refl,
          remove_each-IsReady r
              (ros_command s (print_words r) (some (id_collect_cb r.mode r.match)) []).1 _ a.ready,
        )

  clear-succeeds : (s : Session R) → IsReady s → ((clear s).0 ≡ pos 0) × IsReady (clear s).1
  unfolding clear
  clear-succeeds s ready =
      let one = remove_matching-succeeds s listed_addresses ready in
      let two =
        remove_matching-succeeds (remove_matching s listed_addresses).1 forwarded_names one.1 in
      let three =
        remove_matching-succeeds
          (remove_matching (remove_matching s listed_addresses).1 forwarded_names).1 bypass_rules
          two.1 in
      rw (one.0, clear) (rw two.0 (rw three.0 (refl, three.1)))

  add_entry-succeeds :
      (s : Session R) (e : Entry)
      → IsReady s
      → ((add_entry s e).0 ≡ pos 0) × IsReady (add_entry s e).1
  unfolding add_entry
  add_entry-succeeds s e ready =
      let a =
        ros_command-Accepted s (entry_words e.kind e.value) none tt ready (has_words e.kind e.value)
          none-IsCalm in
      (a.good, a.ready)

  add_entries-succeeds :
      (db : Db) (domains : ℕ) (s : Session R)
      → IsReady s
      → (total : ℕ) × ((add_entries db domains s).0 ≡ some total)
  unfolding add_entries
  add_entries-succeeds [] domains s ready = (domains, refl)
  add_entries-succeeds (e ∷ db) domains s ready =
      let (good, next) = add_entry-succeeds s e ready in
      rw (good, add_entries)
        (add_entries-succeeds db (domains + domains_of e.kind) (add_entry s e).1 next)

  module _ (cfg : Settings) (table_given : is_empty cfg.table ≡ false) where
    add_bypass_rule-succeeds :
        (s : Session R)
        → IsReady s
        → ((add_bypass_rule s cfg).0 ≡ pos 0) × IsReady (add_bypass_rule s cfg).1
    unfolding add_bypass_rule has_no_words bypass_words
    add_bypass_rule-succeeds s ready =
        let scan =
          ros_command-Accepted s bypass_scan_words (some first_auto_cb) none ready refl
            first_auto_cb-IsCalm in
        let first = (ros_command s bypass_scan_words (some first_auto_cb) none).1 in
        let rule =
          ros_command-Accepted (ros_command s bypass_scan_words (some first_auto_cb) none).2
            (bypass_words cfg first) none tt scan.ready refl none-IsCalm in
        rw (table_given, add_bypass_rule) (rw scan.good (rule.good, rule.ready))

    install-succeeds : (s : Session R) (db : Db) → IsReady s → (install s cfg db).0 ≡ pos 0
    unfolding install
    install-succeeds s db ready =
        let (good, next) = add_bypass_rule-succeeds s ready in
        let (total, added) = add_entries-succeeds db 0 (add_bypass_rule s cfg).1 next in
        rw (good, install) (rw added refl)

    -- A synchronisation succeeds when the router answers every command, with whatever objects it shows, by
    -- replies without a trap up to `!done`, nothing is left unread on the open connection, the database
    -- can be loaded, and there is a routing table.
    pub direct_sync-succeeds :
        (s : Session R) (file : Option Text) (db : Db)
        → IsReady s
        → db_load file ≡ some db
        → (direct_sync s cfg file).0 ≡ pos 0
    unfolding direct_sync sync_db
    direct_sync-succeeds s file [] ready loaded =
        rw (loaded, direct_sync) ((clear-succeeds s ready).0)
    direct_sync-succeeds s file (e ∷ db) ready loaded =
        let (good, next) = clear-succeeds s ready in
        rw (loaded, direct_sync) (rw (good, sync_db) (install-succeeds (clear s).1 (e ∷ db) next))
