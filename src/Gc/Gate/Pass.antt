-- ===== src/Gc/Gate/Pass.antt =====
-- About `gc_normal_runtime_gate` of src/gc.c: when it passes.
use susanin.Prelude.{◌≢◌, ◌⊎◌, ◌≡◌, ◌↔◌, refl, ap, sym, true, List, [], ◌∷◌, some, ◌==◌}
use susanin.Prelude.{Bool-cases, Option-cases, inl, inr, arith}
use mathlib.Core.Path.{subst}
use susanin.Prelude.Text.{Text, codes}
use susanin.Gc.Gate.Shown.{is_named, ShownOnce, ShownNone}
use susanin.Gc.Gate.Answered.{
  IsWanted, IsRunning, IsEnabled, script_words, scheduler_words, fixed_words, job_words,
  query_script_gate-ShownOnce, query_scheduler_gate-ShownOnce, query_fixed_gate-ShownOnce,
  managed_job_count-ShownNone,
}
use susanin.Ros.Session.{Router, Session}
use susanin.Gc.Names.{prod_names, fixed_comments}
use susanin.Gc.Queries.{ScriptGate, SchedulerGate, FixedGate}
use susanin.Gc.Queries.{
  query_script_gate, query_scheduler_gate, query_fixed_gate, managed_job_count,
}
use susanin.Gc.Gate.{
  Script, Verdict, pass, skip, unsafe, script_is_exact, scheduler_is_normal, fixed_is_normal,
  check_scripts, check_schedulers, check_fixed, and_then, normal_runtime_gate,
}

-- Asked in turn, the router shows each script once, not invalid, with the desired size and fingerprint.
pub data ScriptsExact {R : Router} : List Text → List Script → Session R → Session R → Type 0 where
  no_scripts : {wants : List Script} {s : Session R} → ScriptsExact [] wants s s
  exact_script :
      {name : Text} {want : Script} {names : List Text} {wants : List Script} {g : ScriptGate}
      {s s1 s' : Session R}
      → query_script_gate s name ≡ (some g, s1)
      → script_is_exact want g ≡ true
      → ShownOnce s (script_words name) (is_named (codes "name") name) (IsWanted want)
      → ScriptsExact names wants s1 s'
      → ScriptsExact (name ∷ names) (want ∷ wants) s s'

-- Asked in turn, each scheduler is there once, enabled, runs its own script, and the script is idle.
pub data SchedulersIdle {R : Router} : List Text → Session R → Session R → Type 0 where
  no_schedulers : {s : Session R} → SchedulersIdle [] s s
  idle_scheduler :
      {name : Text} {names : List Text} {g : SchedulerGate} {s s1 s2 s' : Session R}
      → query_scheduler_gate s name ≡ (some g, s1)
      → scheduler_is_normal name g ≡ true
      → managed_job_count s1 name ≡ (some 0, s2)
      → ShownOnce s (scheduler_words name) (is_named (codes "name") name) (IsRunning name)
      → ShownNone s1 (job_words name)
      → SchedulersIdle names s2 s'
      → SchedulersIdle (name ∷ names) s s'

-- Asked in turn, each fixed rule is there once and enabled.
pub data FixedEnabled {R : Router} : List Text → Session R → Session R → Type 0 where
  no_rules : {s : Session R} → FixedEnabled [] s s
  enabled_rule :
      {comment : Text} {comments : List Text} {g : FixedGate} {s s1 s' : Session R}
      → query_fixed_gate s comment ≡ (some g, s1)
      → fixed_is_normal g ≡ true
      → ShownOnce s (fixed_words comment) (is_named (codes "comment") comment) IsEnabled
      → FixedEnabled comments s1 s'
      → FixedEnabled (comment ∷ comments) s s'

module _ {R : Router} where
  pub check_scripts-pass :
      (names : List Text) (wants : List Script) (s s' : Session R)
      → check_scripts names wants s ≡ (pass, s')
      → ScriptsExact names wants s s'
  unfolding check_scripts
  check_scripts-pass [] wants s s' h = subst (ScriptsExact [] wants s) (ap (λ r. r.1) h) no_scripts
  check_scripts-pass (name ∷ names) [] s s' h = ground arith
  check_scripts-pass (name ∷ names) (want ∷ wants) s s' h =
      let s1 = (query_script_gate s name).1 in
      elim (Option-cases (query_script_gate s name).0) [
        | inl e ↦ ground (arith, rw (e, check_scripts) at h)
        | inr (g, e) ↦ elim (Bool-cases (script_is_exact want g)) [
          | inr b ↦ ground (arith, rw b at (rw (e, check_scripts) at h))
          | inl b ↦
              exact_script (ground arith) b (query_script_gate-ShownOnce s name want g e b)
                (check_scripts-pass names wants s1 s' (rw b at (rw (e, check_scripts) at h)))
        ]
      ]

  -- The loop that proves ownership ends with a pass or a skip, and the whole gate skips with it.
  check_scripts-ne-unsafe :
      (names : List Text) (wants : List Script) (s : Session R)
      → (check_scripts names wants s).0 ≢ unsafe
  unfolding check_scripts
  check_scripts-ne-unsafe [] wants s h = cc
  check_scripts-ne-unsafe (name ∷ names) [] s h = cc
  check_scripts-ne-unsafe (name ∷ names) (want ∷ wants) s h =
      let s1 = (query_script_gate s name).1 in
      elim (Option-cases (query_script_gate s name).0) [
        | inl e ↦ cc (rw (e, check_scripts) at h)
        | inr (g, e) ↦ elim (Bool-cases (script_is_exact want g)) [
          | inr b ↦ cc (rw b at (rw (e, check_scripts) at h))
          | inl b ↦ check_scripts-ne-unsafe names wants s1 (rw b at (rw (e, check_scripts) at h))
        ]
      ]

  gate_by_scripts :
      (desired : List Script) (s : Session R) (r : Verdict × Session R)
      → check_scripts prod_names desired s ≡ r
      → r.0 ≢ unsafe
      → ((normal_runtime_gate (some desired) s).0 ≡ skip) ⊎ ((s1 : Session R) × (r ≡ (pass, s1)))
  unfolding normal_runtime_gate and_then
  gate_by_scripts desired s (pass, s1) e n = inr (s1, refl)
  gate_by_scripts desired s (skip, s1) e n = inl (rw e refl)
  gate_by_scripts desired s (unsafe, s1) e n = absurd (n refl)

  -- Unless it skips, the gate has seen every production script as it should be.
  pub normal_runtime_gate-ScriptsExact :
      (desired : List Script) (s : Session R)
      → ((normal_runtime_gate (some desired) s).0 ≡ skip)
        ⊎ ((s1 : Session R) × ScriptsExact prod_names desired s s1)
  normal_runtime_gate-ScriptsExact desired s =
      elim (gate_by_scripts desired s (check_scripts prod_names desired s) refl
        (check_scripts-ne-unsafe prod_names desired s)) [
          | inl e ↦ inl e
          | inr (s1, e) ↦ inr (s1, check_scripts-pass prod_names desired s s1 e)
        ]

  check_schedulers-pass :
      (names : List Text) (s s' : Session R)
      → check_schedulers names s ≡ (pass, s')
      → SchedulersIdle names s s'
  unfolding check_schedulers
  check_schedulers-pass [] s s' h = subst (SchedulersIdle [] s) (ap (λ r. r.1) h) no_schedulers
  check_schedulers-pass (name ∷ names) s s' h =
      let s1 = (query_scheduler_gate s name).1 in
      let s2 = (managed_job_count s1 name).1 in
      elim (Option-cases (query_scheduler_gate s name).0) [
        | inl e ↦ ground (arith, rw (e, check_schedulers) at h)
        | inr (g, e) ↦ elim (Bool-cases (scheduler_is_normal name g)) [
          | inr b ↦ ground (arith, rw b at (rw (e, check_schedulers) at h))
          | inl b ↦ elim (Option-cases (managed_job_count s1 name).0) [
            | inl j ↦ ground (arith, rw j at (rw b at (rw (e, check_schedulers) at h)))
            | inr (n, j) ↦ elim (Bool-cases (n == 0)) [
              | inr z ↦ ground (arith, rw z at (rw j at (rw b at (rw (e, check_schedulers) at h))))
              | inl z ↦
                  idle_scheduler {s1 = s1} (ground arith) b (ground arith)
                    (query_scheduler_gate-ShownOnce s name g e b)
                    (managed_job_count-ShownNone s1 name (ground (arith, j, z)))
                    (check_schedulers-pass names s2 s'
                      (rw z at (rw j at (rw b at (rw (e, check_schedulers) at h)))))
            ]
          ]
        ]
      ]

  check_fixed-pass :
      (comments : List Text) (s s' : Session R)
      → check_fixed comments s ≡ (pass, s')
      → FixedEnabled comments s s'
  unfolding check_fixed
  check_fixed-pass [] s s' h = subst (FixedEnabled [] s) (ap (λ r. r.1) h) no_rules
  check_fixed-pass (comment ∷ comments) s s' h =
      let s1 = (query_fixed_gate s comment).1 in
      elim (Option-cases (query_fixed_gate s comment).0) [
        | inl e ↦ ground (arith, rw (e, check_fixed) at h)
        | inr (g, e) ↦ elim (Bool-cases (fixed_is_normal g)) [
          | inr b ↦ ground (arith, rw b at (rw (e, check_fixed) at h))
          | inl b ↦
              enabled_rule (ground arith) b (query_fixed_gate-ShownOnce s comment g e b)
                (check_fixed-pass comments s1 s' (rw b at (rw (e, check_fixed) at h)))
        ]
      ]

  scripts_pass :
      {names : List Text} {wants : List Script} {s s' : Session R}
      → ScriptsExact names wants s s'
      → check_scripts names wants s ≡ (pass, s')
  unfolding check_scripts
  scripts_pass no_scripts = refl
  scripts_pass (exact_script q b seen more) =
      rw (q, check_scripts) (rw b (rw (ap (λ r. r.1) q) (scripts_pass more)))

  schedulers_pass :
      {names : List Text} {s s' : Session R}
      → SchedulersIdle names s s'
      → check_schedulers names s ≡ (pass, s')
  unfolding check_schedulers
  schedulers_pass no_schedulers = refl
  schedulers_pass (idle_scheduler q b j seen none_seen more) =
      let j' = rw (sym (ap (λ r. r.1) q)) at j in
      rw (q, check_schedulers) (rw b (rw j' (rw (ap (λ r. r.1) j') (schedulers_pass more))))

  fixed_pass :
      {comments : List Text} {s s' : Session R}
      → FixedEnabled comments s s'
      → check_fixed comments s ≡ (pass, s')
  unfolding check_fixed
  fixed_pass no_rules = refl
  fixed_pass (enabled_rule q b seen more) =
      rw (q, check_fixed) (rw b (rw (ap (λ r. r.1) q) (fixed_pass more)))

-- The gate's three loops, one behind the other.
pub record GateOpen {R : Router} (desired : List Script) (s s' : Session R) : Type 0 where
  pub after_scripts : Session R
  pub after_schedulers : Session R
  pub scripts : ScriptsExact prod_names desired s after_scripts
  pub schedulers : SchedulersIdle prod_names after_scripts after_schedulers
  pub rules : FixedEnabled fixed_comments after_schedulers s'

module _ {R : Router} where
  and_then-pass :
      (r : Verdict × Session R) (next : Session R → Verdict × Session R) (s' : Session R)
      → and_then r next ≡ (pass, s')
      → (s1 : Session R) × (r ≡ (pass, s1)) × (next s1 ≡ (pass, s'))
  unfolding and_then
  and_then-pass (pass, s1) next s' h = (s1, refl, h)
  and_then-pass (skip, s1) next s' h = ground arith
  and_then-pass (unsafe, s1) next s' h = ground arith

  gate_opens :
      (desired : List Script) (s s' : Session R)
      → normal_runtime_gate (some desired) s ≡ (pass, s')
      → GateOpen desired s s'
  unfolding normal_runtime_gate
  gate_opens desired s s' h =
      let (t2, both, f) = and_then-pass _ _ s' h in
      let (t1, c, d) = and_then-pass _ _ t2 both in
      record {
        after_scripts = t1;
        after_schedulers = t2;
        scripts = check_scripts-pass prod_names desired s t1 c;
        schedulers = check_schedulers-pass prod_names t1 t2 d;
        rules = check_fixed-pass fixed_comments t2 s' f;
      }

  open_passes :
      (desired : List Script) (s s' : Session R)
      → GateOpen desired s s'
      → normal_runtime_gate (some desired) s ≡ (pass, s')
  unfolding normal_runtime_gate and_then
  open_passes desired s s' o =
      rw (scripts_pass o.scripts) (rw (schedulers_pass o.schedulers) (fixed_pass o.rules))

  pub normal_runtime_gate-pass_iff :
      (desired : List Script) (s s' : Session R)
      → (normal_runtime_gate (some desired) s ≡ (pass, s')) ↔ GateOpen desired s s'
  normal_runtime_gate-pass_iff desired s s' = (gate_opens desired s s', open_passes desired s s')
