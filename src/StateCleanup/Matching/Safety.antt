-- ===== src/StateCleanup/Matching/Safety.antt =====
-- About `cleanup_matching` of src/state_cleanup.c: what it has seen.
use susanin.Prelude.{ℕ, zero, suc, ◌≡◌, ap, Bool, false, not, ◌&&◌, ◌||◌, List, [], ◌∷◌, Option}
use susanin.Prelude.{none, some, ◌==◌, inl, inr, arith, Bool-cases, Option-cases}
use susanin.Prelude.Int.{ℤ, is_neg}
use susanin.Prelude.Text.{Text}
use susanin.Ros.Session.{Router, Session, sleep}
use susanin.Ros.Session.Leads.{Leads, stays, asks, waits, Leads-trans}
use susanin.Ros.Session.Calls.{received}
use susanin.StateCleanup.Scan.{
  Target, collect_cb, collect_ids, id_word, remove_ids_best_effort, scan_words,
}
use susanin.StateCleanup.Scan.Found.{Scanned, collect_ids-Scanned}
use susanin.StateCleanup.Matching.{inspect, verify, remove_found, cleanup_matching, max_attempts}

-- The scan of a target, and the removal of an object from its menu by id.
pub data IsStep (t : Target) : List Text → Type 0 where
  scans : IsStep t (scan_words t)
  removes : (id : Text) → IsStep t (t.remove_cmd ∷ id_word id ∷ [])

-- From `s`, scans and removals of the target lead to a last scan, which ends in `s'`: the router answered it
-- in full without a trap, and no reply showed an object that matches.
pub record NothingLeft {R : Router} (t : Target) (s s' : Session R) : Type 1 where
  pub scanned_at : Session R
  pub led : Leads (IsStep t) s scanned_at
  pub empty_scan : Scanned t (received scanned_at (scan_words t)) []
  pub after : (collect_ids scanned_at t).1 ≡ s'

module _ {R : Router} (t : Target) where
  Leads-remove_ids :
      (ids : List Text) (s : Session R)
      → Leads (IsStep t) s (remove_ids_best_effort s t.remove_cmd ids)
  unfolding remove_ids_best_effort
  Leads-remove_ids [] s = stays
  Leads-remove_ids (id ∷ ids) s = asks _ none tt (removes id) (Leads-remove_ids ids _)

  Leads-scan : (s : Session R) → Leads (IsStep t) s (collect_ids s t).1
  unfolding collect_ids
  Leads-scan s = asks (scan_words t) (some (collect_cb t.attr t.match)) [] scans stays

  scan_pair_lem :
      (p : Option (List Text) × Session R) (x : Option (List Text)) → p.0 ≡ x → p ≡ (x, p.1)
  scan_pair_lem p x e = ground arith

  empty_scan-NothingLeft :
      (s s1 s' : Session R)
      → Leads (IsStep t) s s1
      → collect_ids s1 t ≡ (some [], s')
      → NothingLeft t s s'
  empty_scan-NothingLeft s s1 s' led e = record {
    scanned_at = s1;
    led = led;
    empty_scan = collect_ids-Scanned s1 t [] s' e;
    after = ap (λ p. p.1) e;
  }

  module _ (retry : Bool) where
    verify_good :
        (left initial removed r : ℕ) (rc : ℤ) (s0 s s' : Session R)
        → Leads (IsStep t) s0 s
        → verify t retry left initial removed s ≡ (rc, r, s')
        → is_neg rc ≡ false
        → NothingLeft t s0 s'
    unfolding verify
    verify_good zero initial removed r rc s0 s s' led h n = ground arith
    verify_good (suc left) initial removed r rc s0 s s' led h n =
        let scan = collect_ids (sleep s) t in
        let led_on = Leads-trans led (waits (Leads-scan (sleep s))) in
        elim (Option-cases scan.0) [
          | inl e ↦ elim (Bool-cases (retry && not (left == 0))) [
            | inl b ↦
                verify_good left initial removed r rc s0 scan.1 s' led_on
                  (rw b at (rw (e, verify) at h)) n
            | inr b ↦ ground (arith, rw b at (rw (e, verify) at h))
          ]
          | inr ([], e) ↦
              empty_scan-NothingLeft s0 (sleep s) s' (Leads-trans led (waits stays))
                (ground (arith, scan_pair_lem scan (some []) e, rw (e, verify) at h))
          | inr (id ∷ more, e) ↦ elim (Bool-cases (left == 0)) [
            | inl b ↦ ground (arith, rw b at (rw (e, verify) at h))
            | inr b ↦
                verify_good left initial removed r rc s0
                  (remove_ids_best_effort scan.1 t.remove_cmd (id ∷ more)) s'
                  (Leads-trans led_on (Leads-remove_ids (id ∷ more) scan.1))
                  (rw b at (rw (e, verify) at h)) n
          ]
        ]

    inspect-some :
        (left : ℕ) (s : Session R) (ids : List Text)
        → (inspect t retry left s).0 ≡ some ids
        → (s1 : Session R) × Leads (IsStep t) s s1
          × (collect_ids s1 t ≡ (some ids, (inspect t retry left s).1))
    unfolding inspect
    inspect-some zero s ids h = cc
    inspect-some (suc left) s ids h =
        let scan = collect_ids s t in
        elim (Option-cases scan.0) [
          | inl e ↦ elim (Bool-cases (not retry || left == 0)) [
            | inl b ↦ cc (rw b at (rw (e, inspect) at h))
            | inr b ↦
                let (s1, led, found) =
                  inspect-some left (sleep scan.1) ids (rw b at (rw (e, inspect) at h)) in
                rw (e, inspect) (rw b (s1, Leads-trans (Leads-scan s) (waits led), found))
          ]
          | inr (found, e) ↦ (
            s,
            stays,
            rw (e, inspect)
                (ground (arith, scan_pair_lem scan (some found) e, rw (e, inspect) at h)),
          )
        ]

    remove_found_good :
        (ids : List Text) (removed r : ℕ) (rc : ℤ) (s0 s s1 s' : Session R)
        → Leads (IsStep t) s0 s1
        → Leads (IsStep t) s0 s
        → collect_ids s1 t ≡ (some ids, s)
        → remove_found t retry ids removed s ≡ (rc, r, s')
        → is_neg rc ≡ false
        → NothingLeft t s0 s'
    unfolding remove_found
    remove_found_good [] removed r rc s0 s s1 s' led on e h n =
        empty_scan-NothingLeft s0 s1 s' led (ground arith)
    remove_found_good (id ∷ ids) removed r rc s0 s s1 s' led on e h n =
        verify_good max_attempts _ removed r rc s0 _ s'
          (Leads-trans on (Leads-remove_ids (id ∷ ids) s)) h n

    -- When `cleanup_matching` does not return -1, the last thing that it did was a scan that the router
    -- answered in full and that showed nothing that matches.
    pub cleanup_matching_good :
        (removed r : ℕ) (rc : ℤ) (s s' : Session R)
        → cleanup_matching t retry removed s ≡ (rc, r, s')
        → is_neg rc ≡ false
        → NothingLeft t s s'
    unfolding cleanup_matching
    cleanup_matching_good removed r rc s s' h n =
        elim (Option-cases (inspect t retry max_attempts s).0) [
          | inl e ↦ ground (arith, rw (e, cleanup_matching) at h)
          | inr (ids, e) ↦
              let (s1, led, scan) = inspect-some max_attempts s ids e in
              let on = Leads-trans led (rw (ap (λ p. p.1) scan) at (Leads-scan s1)) in
              remove_found_good ids removed r rc s _ s1 s' led on scan
                (rw (e, cleanup_matching) at h) n
        ]
