-- ===== src/Gc/FailSafe/Paused.antt =====
-- About `gc_fail_safe` of src/gc.c: what it has seen of the schedulers.
use susanin.Prelude.{
  Bool, true, false, Option, ◌⊎◌, ℕ, ◌+◌, ◌≤◌, ◌≡◌, refl, not, ◌||◌, List, [], ◌∷◌, none, some,
  ◌==◌,
}
use susanin.Prelude.{Bool-cases, Option-cases, inl, inr, arith}
use susanin.Prelude.Int.{is_neg, minus_one}
use susanin.StateCleanup.Disable.{disable_adaptive_mangle}
use susanin.Prelude.Text.{Text}
use susanin.Prelude.Decimal.{is_empty}
use susanin.Ros.Session.{Router, Session, ros_command}
use susanin.Gc.Names.{prod_names}
use susanin.Gc.Queries.{SchedulerGate, query_scheduler_gate}
use susanin.Gc.FailSafe.{
  pause_words, is_paused, pause_found, disable_scheduler_exact, pause_all, gc_fail_safe,
}

-- From `s` to `s'`: the scheduler was shown once, the write that disables it did not fail, and the query
-- right behind the write showed it once, and disabled.
pub record SeenPaused {R : Router} (name : Text) (s s' : Session R) : Type 0 where
  pub gate : SchedulerGate
  pub asked : Session R
  pub shown : query_scheduler_gate s name ≡ (some gate, asked)
  pub once : gate.count ≡ 1
  pub written : is_neg (ros_command asked (pause_words gate.id) none tt).0 ≡ false
  pub now : SchedulerGate
  pub answer :
      query_scheduler_gate (ros_command asked (pause_words gate.id) none tt).2 name ≡ (some now, s')
  pub still_once : now.count ≡ 1
  pub disabled : now.disabled ≡ true

-- Each scheduler in turn.
pub data AllPaused {R : Router} : List Text → Session R → Session R → Type 0 where
  none_left : {s : Session R} → AllPaused [] s s
  next_paused :
      {name : Text} {names : List Text} {s s1 s' : Session R}
      → SeenPaused name s s1
      → AllPaused names s1 s'
      → AllPaused (name ∷ names) s s'

is_paused_lem :
    (g : SchedulerGate) → is_paused (some g) ≡ true → (g.count ≡ 1) × (g.disabled ≡ true)
unfolding is_paused
is_paused_lem g h = ground arith

shown_once : (n : ℕ) (b : Bool) → (not (n == 1) || b) ≡ false → n ≡ 1
shown_once n b h = ground arith

eq_zero : (n : ℕ) → (n == 0) ≡ true → n ≡ 0
eq_zero n h = ground arith

ne_zero : (n : ℕ) → (n == 0) ≡ false → 1 ≤ n
ne_zero n h = ground arith

module _ {R : Router} where
  paused_pair_lem :
      {A : Type 0} (p : Option A × Session R) (a : A) → p.0 ≡ some a → p ≡ (some a, p.1)
  paused_pair_lem p a h = ground arith

  disable_scheduler_exact-SeenPaused :
      (name : Text) (s : Session R)
      → (disable_scheduler_exact name s).0 ≡ true
      → SeenPaused name s (disable_scheduler_exact name s).1
  unfolding disable_scheduler_exact pause_found is_paused
  disable_scheduler_exact-SeenPaused name s h =
      let first = query_scheduler_gate s name in
      elim (Option-cases first.0) [
        | inl e ↦ cc (rw (e, disable_scheduler_exact) at h)
        | inr (g, e) ↦ elim (Bool-cases (not (g.count == 1) || is_empty g.id)) [
          | inl b ↦ cc (rw b at (rw (e, disable_scheduler_exact) at h))
          | inr b ↦
              let back = rw b at (rw (e, disable_scheduler_exact) at h) in
              let call = ros_command first.1 (pause_words g.id) none tt in
              let after = query_scheduler_gate call.2 name in
              elim (Bool-cases (is_neg call.0)) [
                | inl n ↦ cc (rw (n, pause_found) at back)
                | inr n ↦ elim (Option-cases after.0) [
                  | inl k ↦ cc (rw (k, is_paused) at (rw (n, pause_found) at back))
                  | inr (g', k) ↦
                      let paused = rw k at (rw (n, pause_found) at back) in
                      rw (e, disable_scheduler_exact)
                        (rw (b) (
                          rw (n, pause_found)
                            (record {
                              gate = g;
                              asked = first.1;
                              shown = paused_pair_lem first g e;
                              once = shown_once g.count (is_empty g.id) b;
                              written = n;
                              now = g';
                              answer = paused_pair_lem after g' k;
                              still_once = (is_paused_lem g' paused).0;
                              disabled = (is_paused_lem g' paused).1;
                            })))
                ]
              ]
        ]
      ]

  -- A failure is never forgotten.
  le-pause_all :
      (names : List Text) (failed : ℕ) (s : Session R) → failed ≤ (pause_all names failed s).0
  unfolding pause_all
  le-pause_all [] failed s = omega arith
  le-pause_all (name ∷ names) failed s =
      let (paused, s1) = disable_scheduler_exact name s in
      elim (Bool-cases paused) [
        | inl e ↦ rw (e, pause_all) (le-pause_all names failed s1)
        | inr e ↦ rw (e, pause_all) (omega (arith, le-pause_all names (failed + 1) s1))
      ]

  pause_all-AllPaused :
      (names : List Text) (s : Session R)
      → (pause_all names 0 s).0 ≡ 0
      → AllPaused names s (pause_all names 0 s).1
  unfolding pause_all
  pause_all-AllPaused [] s h = none_left
  pause_all-AllPaused (name ∷ names) s h =
      let one = disable_scheduler_exact name s in
      elim (Bool-cases one.0) [
        | inl e ↦
            rw (e, pause_all)
              (next_paused (disable_scheduler_exact-SeenPaused name s e)
                (pause_all-AllPaused names one.1 (rw (e, pause_all) at h)))
        | inr e ↦ absurd (omega (arith, le-pause_all names 1 one.1, rw (e, pause_all) at h))
      ]

  -- The fallback always returns -1, and either it reports a scheduler that failed, or, before it turns to
  -- the mangle rules, each production scheduler in turn was written to, and then read back once, disabled.
  pub gc_fail_safe-AllPaused :
      (s : Session R)
      → ((gc_fail_safe s).0 ≡ minus_one)
        × ((1 ≤ (gc_fail_safe s).1.0)
            ⊎ ((s1 : Session R) × AllPaused prod_names s s1
                × ((disable_adaptive_mangle s1).1 ≡ (gc_fail_safe s).2)))
  unfolding gc_fail_safe
  gc_fail_safe-AllPaused s =
      let paused = pause_all prod_names 0 s in
      elim (Bool-cases (paused.0 == 0)) [
        | inl e ↦
            (refl, inr (paused.1, pause_all-AllPaused prod_names s (eq_zero paused.0 e), refl))
        | inr e ↦ (refl, inl (ne_zero paused.0 e))
      ]
