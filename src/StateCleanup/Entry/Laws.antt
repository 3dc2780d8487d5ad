-- ===== src/StateCleanup/Entry/Laws.antt =====
-- About the entry points of src/state_cleanup.c for promotion and rollback.
use susanin.Prelude.{ℕ, ◌≡◌, refl, Bool, true, false, List, [], ◌∷◌, arith, Bool-cases, inl, inr}
use mathlib.Core.Path.{subst}
use susanin.Prelude.Int.{ℤ, is_neg}
use susanin.Prelude.Text.{Text}
use susanin.Ros.Session.{Router, Session}
use susanin.Ros.Session.Log.{SentOnly, SentOnly-trans}
use susanin.StateCleanup.Scan.{Target, scan_words, id_word}
use susanin.StateCleanup.Matching.{cleanup_matching}
use susanin.StateCleanup.Matching.Safety.{NothingLeft, cleanup_matching_good}
use susanin.StateCleanup.Matching.Effects.{SentOnly-cleanup_matching}
use susanin.StateCleanup.Entry.{
  CleanupStats, no_stats, legacy_target, marks_target, port_target, lazy_target,
  cleanup_legacy_lists, cleanup_marked_connections, cleanup_legacy_into, cleanup_legacy_state,
  cleanup_dev2_runtime,
}

-- The namespaces that Susanin owns.
pub data IsTarget : Target → Type 0 where
  legacy : IsTarget legacy_target
  marks : IsTarget marks_target
  ports : IsTarget port_target
  lazy : IsTarget lazy_target

-- The scan of such a namespace, and the removal of an object from its menu by id.
pub data IsCleanup : List Text → Type 0 where
  scan : {t : Target} → IsTarget t → IsCleanup (scan_words t)
  removal : {t : Target} → IsTarget t → (id : Text) → IsCleanup (t.remove_cmd ∷ id_word id ∷ [])

-- The legacy lists were seen empty, and right behind that the marks.
pub record LegacyGone {R : Router} (s s' : Session R) : Type 1 where
  pub lists_at : Session R
  pub lists_gone : NothingLeft legacy_target s lists_at
  pub marks_gone : NothingLeft marks_target lists_at s'

-- The four namespaces were seen empty, one right behind the other.
pub record Dev2Gone {R : Router} (s s' : Session R) : Type 1 where
  pub rules_at : Session R
  pub rules_gone : NothingLeft lazy_target s rules_at
  pub ports_at : Session R
  pub ports_gone : NothingLeft port_target rules_at ports_at
  pub legacy_gone : LegacyGone ports_at s'

module _ {R : Router} where
  SentOnly-target :
      (t : Target)
      → IsTarget t
      → (retry : Bool) (removed : ℕ) (s : Session R)
      → SentOnly IsCleanup s (cleanup_matching t retry removed s).2
  SentOnly-target t i retry removed s =
      SentOnly-cleanup_matching IsCleanup t (scan i) (removal i) retry removed s

  SentOnly-legacy_into :
      (stats : CleanupStats) (s : Session R) → SentOnly IsCleanup s (cleanup_legacy_into stats s).2
  unfolding cleanup_legacy_into cleanup_legacy_lists cleanup_marked_connections
  SentOnly-legacy_into stats s =
      let first = SentOnly-target legacy_target legacy false stats.legacy_entries s in
      elim (Bool-cases (is_neg (cleanup_matching legacy_target false stats.legacy_entries s).0)) [
        | inl e ↦ rw (e, cleanup_legacy_into) first
        | inr e ↦
            rw (e, cleanup_legacy_into)
              (SentOnly-trans IsCleanup first (SentOnly-target marks_target marks true _ _))
      ]

  -- Whatever happens, a cleanup of the dev2 runtime sends only scans of the namespaces that Susanin
  -- owns and removals by id from the address lists, the mangle rules and the connections.
  SentOnly-cleanup_dev2_runtime : (s : Session R) → SentOnly IsCleanup s (cleanup_dev2_runtime s).2
  unfolding cleanup_dev2_runtime
  SentOnly-cleanup_dev2_runtime s =
      let rules = cleanup_matching lazy_target false 0 s in
      let first = SentOnly-target lazy_target lazy false 0 s in
      let second =
        SentOnly-trans IsCleanup first (SentOnly-target port_target ports false 0 rules.2) in
      elim (Bool-cases (is_neg rules.0)) [
        | inl e ↦ rw (e, cleanup_dev2_runtime) first
        | inr e ↦ elim (Bool-cases (is_neg (cleanup_matching port_target false 0 rules.2).0)) [
          | inl f ↦ rw (e, cleanup_dev2_runtime) (rw f second)
          | inr f ↦
              rw (e, cleanup_dev2_runtime)
                (rw f (SentOnly-trans IsCleanup second (SentOnly-legacy_into _ _)))
        ]
      ]

  -- Whatever happens, a promotion's cleanup sends only scans of the namespaces that Susanin owns and
  -- removals by id from their menus.
  pub SentOnly-cleanup_legacy_state :
      (s : Session R) → SentOnly IsCleanup s (cleanup_legacy_state s).2
  unfolding cleanup_legacy_state
  SentOnly-cleanup_legacy_state s = SentOnly-legacy_into no_stats s

  legacy_into_good :
      (stats stats' : CleanupStats) (rc : ℤ) (s s' : Session R)
      → cleanup_legacy_into stats s ≡ (rc, stats', s')
      → is_neg rc ≡ false
      → LegacyGone s s'
  unfolding cleanup_legacy_into cleanup_legacy_lists cleanup_marked_connections
  legacy_into_good stats stats' rc s s' h n =
      let lists = cleanup_matching legacy_target false stats.legacy_entries s in
      let conns = cleanup_matching marks_target true stats.marked_connections lists.2 in
      elim (Bool-cases (is_neg lists.0)) [
        | inl e ↦ ground (arith, rw (e, cleanup_legacy_into) at h)
        | inr e ↦ elim (Bool-cases (is_neg conns.0)) [
          | inl f ↦ ground (arith, rw f at (rw (e, cleanup_legacy_into) at h))
          | inr f ↦ record {
            lists_at = lists.2;
            lists_gone =
                cleanup_matching_good legacy_target false _ lists.1 lists.0 s lists.2 refl e;
            marks_gone =
                subst (NothingLeft marks_target lists.2)
                  (ground (arith, rw f at (rw (e, cleanup_legacy_into) at h)))
                  (cleanup_matching_good marks_target true _ conns.1 conns.0 lists.2 conns.2 refl
                    f);
          }
        ]
      ]

  -- A cleanup of the dev2 runtime that succeeds has seen each of the four namespaces empty, in this order and
  -- one right behind the other: the lazy mark rules, the port lists, the legacy lists and the marked
  -- connections. Each time it goes on only behind a scan that the router answered in full and that showed no
  -- object of that namespace.
  pub cleanup_dev2_runtime_good :
      (s s' : Session R) (rc : ℤ) (stats : CleanupStats)
      → cleanup_dev2_runtime s ≡ (rc, stats, s')
      → is_neg rc ≡ false
      → Dev2Gone s s'
  unfolding cleanup_dev2_runtime
  cleanup_dev2_runtime_good s s' rc stats h n =
      let rules = cleanup_matching lazy_target false 0 s in
      let lists = cleanup_matching port_target false 0 rules.2 in
      elim (Bool-cases (is_neg rules.0)) [
        | inl e ↦ ground (arith, rw (e, cleanup_dev2_runtime) at h)
        | inr e ↦ elim (Bool-cases (is_neg lists.0)) [
          | inl f ↦ ground (arith, rw f at (rw (e, cleanup_dev2_runtime) at h))
          | inr f ↦ record {
            rules_at = rules.2;
            rules_gone = cleanup_matching_good lazy_target false 0 rules.1 rules.0 s rules.2 refl e;
            ports_at = lists.2;
            ports_gone =
                cleanup_matching_good port_target false 0 lists.1 lists.0 rules.2 lists.2 refl f;
            legacy_gone =
                legacy_into_good _ stats rc lists.2 s' (rw f at (rw (e, cleanup_dev2_runtime) at h))
                  n;
          }
        ]
      ]
