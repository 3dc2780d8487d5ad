-- ===== src/Stage/Gone.antt =====
-- About the removal of staged scripts in src/stage.c.
use susanin.Prelude.{
  ℕ, zero, suc, ◌≡◌, refl, true, false, not, ◌&&◌, List, [], ◌∷◌, none, All, Bool-cases, inl, inr,
  arith, ◌==◌, ◌≤◌,
}
use susanin.Prelude.Int.{ℤ, pos, negsuc, is_neg, is_zero}
use susanin.Prelude.Text.{Text}
use susanin.Ros.Session.{Router, Session, sleep}
use susanin.Stage.{
  stage_names, lookup_name_exact, remove_id, verify_gone, remove_attempt, remove_loop,
  remove_name_exact, clean_one, clean_loop, stage_clean_run, pre_clean,
}
use susanin.Stage.Shown.{Looked, lookup_name_exact-Looked}
use susanin.Stage.Steps.{
  Steps, stays, waits, removes, is_stage_name, all_staged, looks, Steps-trans, Steps-remove_attempt,
}

-- From `s`, the staging steps lead to a look that finds nothing under the name, and that is the last one.
pub record Gone {R : Router} (name : Text) (s s' : Session R) : Type 1 where
  pub asked : Session R
  pub led : Steps s asked
  pub looked : Looked name asked none
  pub after : (lookup_name_exact asked name).2 ≡ s'

-- The names are gone one after the other.
pub data AllGone {R : Router} : List Text → Session R → Session R → Type 1 where
  none_left : {s : Session R} → AllGone [] s s
  gone_too :
      {name : Text} {names : List Text} {s s1 s' : Session R}
      → Gone name s s1
      → AllGone names s1 s'
      → AllGone (name ∷ names) s s'

pub is_zero-is_neg : (rc : ℤ) → is_zero rc ≡ true → is_neg rc ≡ false
is_zero-is_neg (pos n) h = refl
is_zero-is_neg (negsuc n) h = ground arith

is_none : (n : ℕ) → (n == 0) ≡ true → n ≡ 0
is_none n h = ground arith

no_failure : {A : Type 1} (n : ℕ) → 1 ≤ n → n ≡ 0 → A
no_failure n g h = ground arith

module _ {R : Router} where
  Gone-later : {name : Text} {s t u : Session R} → Steps s t → Gone name t u → Gone name s u
  Gone-later a g = record {
    asked = g.asked;
    led = Steps-trans a g.led;
    looked = g.looked;
    after = g.after;
  }

  found_nothing :
      (s : Session R) (name : Text)
      → is_neg (lookup_name_exact s name).0 ≡ false
      → (lookup_name_exact s name).1.found ≡ false
      → Gone name s (lookup_name_exact s name).2
  found_nothing s name n f = record {
    asked = s;
    led = stays;
    looked = rw f at (lookup_name_exact-Looked s name n);
    after = refl;
  }

  verify_gone-Gone :
      (s : Session R) (name : Text)
      → (verify_gone s name).0 ≡ true
      → Gone name s (verify_gone s name).1
  unfolding verify_gone
  verify_gone-Gone s name h =
      let call = lookup_name_exact s name in
      elim (Bool-cases (is_zero call.0 && not call.1.found)) [
        | inl e ↦
            rw (e, verify_gone)
              (found_nothing s name (is_zero-is_neg call.0 (ground (arith, e))) (ground (arith, e)))
        | inr e ↦ ground (arith, rw (e, verify_gone) at h)
      ]

  remove_attempt-Gone :
      (s : Session R) (name : Text)
      → is_stage_name name ≡ true
      → (remove_attempt s name).0 ≡ true
      → Gone name s (remove_attempt s name).1
  unfolding remove_attempt
  remove_attempt-Gone s name i h =
      let call = lookup_name_exact s name in
      let removed = remove_id call.2 call.1.id in
      elim (Bool-cases (is_neg call.0)) [
        | inl e ↦ ground (arith, rw (e, remove_attempt) at h)
        | inr e ↦ elim (Bool-cases call.1.found) [
          | inr f ↦ rw (e, remove_attempt) (rw f (found_nothing s name e f))
          | inl f ↦ elim (Bool-cases (is_zero removed.0)) [
            | inl z ↦
                rw (e, remove_attempt)
                  (rw f (
                    rw z (
                      Gone-later (removes name i e f (waits stays)) (
                        verify_gone-Gone (sleep removed.1) name
                          (rw z at (rw f at (rw (e, remove_attempt) at h)))))))
            | inr z ↦ ground (arith, rw z at (rw f at (rw (e, remove_attempt) at h)))
          ]
        ]
      ]

  remove_loop-Gone :
      (n : ℕ) (s : Session R) (name : Text)
      → is_stage_name name ≡ true
      → is_neg (remove_loop n s name).0 ≡ false
      → Gone name s (remove_loop n s name).1
  unfolding remove_loop
  remove_loop-Gone zero s name i h = ground arith
  remove_loop-Gone (suc n) s name i h = elim (Bool-cases (remove_attempt s name).0) [
    | inl e ↦ rw (e, remove_loop) (remove_attempt-Gone s name i e)
    | inr e ↦
        rw (e, remove_loop)
          (Gone-later (Steps-remove_attempt s name i)
            (remove_loop-Gone n (remove_attempt s name).1 name i (rw (e, remove_loop) at h)))
  ]

  -- A removal by name that succeeds ends with a look that finds nothing under it.
  pub remove_name_exact-Gone :
      (s : Session R) (name : Text)
      → is_stage_name name ≡ true
      → is_neg (remove_name_exact s name).0 ≡ false
      → Gone name s (remove_name_exact s name).1
  unfolding remove_name_exact
  remove_name_exact-Gone s name i h = remove_loop-Gone 5 s name i h

  pub pre_clean-AllGone :
      (names : List Text) (s : Session R)
      → All (λ n. is_stage_name n ≡ true) names
      → (pre_clean names s).0 ≡ true
      → AllGone names s (pre_clean names s).1
  unfolding pre_clean
  pre_clean-AllGone [] s a h = none_left
  pre_clean-AllGone (name ∷ names) s (i, a) h =
      let removed = remove_name_exact s name in
      elim (Bool-cases (is_neg removed.0)) [
        | inl e ↦ ground (arith, rw (e, pre_clean) at h)
        | inr e ↦
            rw (e, pre_clean)
              (gone_too (remove_name_exact-Gone s name i e)
                (pre_clean-AllGone names removed.1 a (rw (e, pre_clean) at h)))
      ]

  clean_one-Gone :
      (s : Session R) (name : Text)
      → is_stage_name name ≡ true
      → (clean_one s name).0 ≡ true
      → Gone name s (clean_one s name).1
  unfolding clean_one
  clean_one-Gone s name i h =
      let call = lookup_name_exact s name in
      let removed = remove_name_exact call.2 name in
      elim (Bool-cases (is_neg call.0)) [
        | inl e ↦ ground (arith, rw (e, clean_one) at h)
        | inr e ↦ elim (Bool-cases call.1.found) [
          | inr f ↦ rw (e, clean_one) (rw f (found_nothing s name e f))
          | inl f ↦ elim (Bool-cases (is_neg removed.0)) [
            | inl z ↦ ground (arith, rw z at (rw f at (rw (e, clean_one) at h)))
            | inr z ↦
                rw (e, clean_one)
                  (rw f (
                    rw z
                      (Gone-later (looks s name stays) (remove_name_exact-Gone call.2 name i z))))
          ]
        ]
      ]

  -- Failures are never taken back.
  clean_loop-grows :
      (names : List Text) (failed : ℕ) (s : Session R) → failed ≤ (clean_loop names failed s).0
  unfolding clean_loop
  clean_loop-grows [] failed s = omega arith
  clean_loop-grows (name ∷ names) failed s = elim (Bool-cases (clean_one s name).0) [
    | inl e ↦ rw (e, clean_loop) (clean_loop-grows names failed (clean_one s name).1)
    | inr e ↦
        rw (e, clean_loop) (omega (arith, clean_loop-grows names (suc failed) (clean_one s name).1))
  ]

  clean_loop-AllGone :
      (names : List Text) (s : Session R)
      → All (λ n. is_stage_name n ≡ true) names
      → (clean_loop names 0 s).0 ≡ 0
      → AllGone names s (clean_loop names 0 s).1
  unfolding clean_loop
  clean_loop-AllGone [] s a h = none_left
  clean_loop-AllGone (name ∷ names) s (i, a) h =
      let once = clean_one s name in
      elim (Bool-cases once.0) [
        | inl e ↦
            rw (e, clean_loop)
              (gone_too (clean_one-Gone s name i e)
                (clean_loop-AllGone names once.1 a (rw (e, clean_loop) at h)))
        | inr e ↦
            no_failure (clean_loop names 1 once.1).0 (clean_loop-grows names 1 once.1)
              (rw (e, clean_loop) at h)
      ]

  -- A cleanup that succeeds has seen, for each of the four names in turn, a complete answer of the router
  -- without a script of that name; in between it took the staging steps only.
  pub stage_clean_run_good :
      (s : Session R)
      → is_neg (stage_clean_run s).0 ≡ false
      → AllGone stage_names s (stage_clean_run s).1
  unfolding stage_clean_run
  stage_clean_run_good s h =
      let cleaned = clean_loop stage_names 0 s in
      elim (Bool-cases (cleaned.0 == 0)) [
        | inl e ↦
            rw (e, stage_clean_run)
              (clean_loop-AllGone stage_names s all_staged (is_none cleaned.0 e))
        | inr e ↦ ground (arith, rw (e, stage_clean_run) at h)
      ]
