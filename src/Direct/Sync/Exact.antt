-- ===== src/Direct/Sync/Exact.antt =====
-- About a `direct_sync` of src/direct.c that returns no error.
use susanin.Prelude.{
  ℕ, ◌+◌, ◌≡◌, ap, false, List, [], ◌∷◌, Option, none, some, arith, Bool-cases, Option-cases, inl,
  inr,
}
use susanin.Prelude.Int.{ℤ, is_neg}
use susanin.Prelude.Text.{Text}
use susanin.Ros.Session.{Router, Session, ros_command}
use susanin.Ros.Session.Log.{ros_command_sent}
use susanin.Config.Options.{Settings}
use susanin.Direct.Database.{Db, db_load}
use susanin.Direct.Sync.{
  bypass_words, entry_words, domains_of, add_bypass_rule, add_entry, add_entries, clear, flush,
  install, sync_db, direct_sync,
}
use susanin.Direct.Sync.Adds.{
  Adds, Adds-trans, Adds-refl, Adds-then, Adds-one, Adds-clear, Adds-flush, Adds-add_bypass_rule,
  entry_words-adds,
}

-- One addition for each entry, in their order.
abbrev pub entry_commands : Db → List (List Text)
entry_commands [] = []
entry_commands (e ∷ db) = entry_words e.kind e.value ∷ entry_commands db

-- What is added for a policy: nothing for an empty one, and otherwise the bypass rule and the entries.
abbrev pub wanted : Settings → Option Text → Db → List (List Text)
wanted cfg first [] = []
wanted cfg first (e ∷ db) = bypass_words cfg first ∷ entry_commands (e ∷ db)

module _ {R : Router} where
  Adds-add_entries :
      (db : Db) (domains total : ℕ) (s : Session R)
      → (add_entries db domains s).0 ≡ some total
      → Adds (entry_commands db) s (add_entries db domains s).1
  unfolding add_entries add_entry
  Adds-add_entries [] domains total s h = Adds-refl s
  Adds-add_entries (e ∷ db) domains total s h =
      let words = entry_words e.kind e.value in
      let call = ros_command s words none tt in
      elim (Bool-cases (is_neg call.0)) [
        | inl n ↦ cc (rw (n, add_entries) at h)
        | inr n ↦
            rw (n, add_entries)
              (Adds-trans (words ∷ []) (entry_commands db)
                (Adds-one s call.2 words (ros_command_sent s words none tt n)
                  (entry_words-adds e.kind e.value))
                (Adds-add_entries db (domains + domains_of e.kind) total call.2
                  (rw (n, add_entries) at h)))
      ]

  module _ (cfg : Settings) where
    Adds-install :
        (s s' : Session R) (db : Db) (rc : ℤ)
        → install s cfg db ≡ (rc, s')
        → is_neg rc ≡ false
        → (first : Option Text) × Adds (bypass_words cfg first ∷ entry_commands db) s s'
    unfolding install
    Adds-install s s' db rc h n =
        let rule = add_bypass_rule s cfg in
        let entries = add_entries db 0 rule.1 in
        elim (Bool-cases (is_neg rule.0)) [
          | inl e ↦ ground (arith, rw (e, install) at h)
          | inr e ↦ elim (Option-cases entries.0) [
            | inl f ↦ ground (arith, rw f at (rw (e, install) at h))
            | inr (domains, f) ↦
                let (first, bypass) = Adds-add_bypass_rule cfg s e in
                let end : flush domains entries.1 ≡ s' =
                  ap (λ r. r.1) (rw f at (rw (e, install) at h)) in
                (
                  first,
                  rw (← end) (
                      Adds-then (bypass_words cfg first ∷ entry_commands db)
                        (Adds-trans (bypass_words cfg first ∷ []) (entry_commands db) bypass
                          (Adds-add_entries db 0 domains rule.1 f))
                        (Adds-flush domains entries.1)),
                )
          ]
        ]

    Adds-sync_db :
        (s s' : Session R) (db : Db) (rc : ℤ)
        → sync_db s cfg db ≡ (rc, s')
        → is_neg rc ≡ false
        → (first : Option Text) × Adds (wanted cfg first db) s s'
    unfolding sync_db
    Adds-sync_db s s' [] rc h n =
        let same : (clear s).1 ≡ s' = ap (λ r. r.1) h in (none, rw (← same) (Adds-clear s))
    Adds-sync_db s s' (e ∷ db) rc h n = elim (Bool-cases (is_neg (clear s).0)) [
      | inl k ↦ ground (arith, rw (k, sync_db) at h)
      | inr k ↦
          let (first, added) = Adds-install (clear s).1 s' (e ∷ db) rc (rw (k, sync_db) at h) n in
          (first, Adds-trans [] (wanted cfg first (e ∷ db)) (Adds-clear s) added)
    ]

    -- A synchronisation that does not fail has read the file, and has added exactly the bypass rule and
    -- then each entry of the policy once, in order; nothing for an empty policy.
    pub direct_sync_good :
        (s s' : Session R) (file : Option Text) (rc : ℤ)
        → direct_sync s cfg file ≡ (rc, s')
        → is_neg rc ≡ false
        → (db : Db) × (first : Option Text) × (db_load file ≡ some db)
          × Adds (wanted cfg first db) s s'
    unfolding direct_sync
    direct_sync_good s s' file rc h n = elim (Option-cases (db_load file)) [
      | inl e ↦ ground (arith, rw (e, direct_sync) at h)
      | inr (db, e) ↦
          let (first, added) = Adds-sync_db s s' db rc (rw (e, direct_sync) at h) n in
          (db, first, e, added)
    ]
