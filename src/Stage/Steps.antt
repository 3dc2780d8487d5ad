-- ===== src/Stage/Steps.antt =====
-- About the commands of src/stage.c, as steps of the router's script table.
use susanin.Prelude.{
  if-second, ◌≡◌, refl, Bool, true, false, not, List, [], ◌∷◌, Option, some, any, All, Bool-cases,
  Option-cases, inl, inr, zero, suc, ℕ, arith,
}
use susanin.Prelude.Int.{is_neg}
use susanin.Prelude.Text.{Text, codes, str_eq}
use susanin.Ros.Command.{Callback}
use susanin.Ros.Session.{Router, Session, ros_command, sleep}
use susanin.Ros.Session.Log.{is_change, ends_with}
use susanin.Config.Options.{Settings}
use susanin.Renderer.Build.{
  RenderedScript, RenderBundle, query_lan, renderer_build, member_words, member_cb, no_ctx,
  address_words, addr_cb,
}
use susanin.Stage.{
  stage_names, lookup_name_exact, lookup_loop, lookup_with_retry, remove_id, verify_gone,
  remove_attempt, remove_loop, remove_name_exact, add_stage, clean_one, clean_loop, stage_clean_run,
  pre_clean, stage_comment, read_back, stage_one, stage_loop, roll_back, stage_bundle, stage_run,
}

unfoldable pub is_stage_name : Text → Bool
unfolding stage_names
is_stage_name name = any (λ n. str_eq n name) stage_names

-- What the staging commands may do, one after the other: ask, wait, remove the script that a look has
-- just shown under one of the four names, and add a script under one of them.
pub data Steps {R : Router} : Session R → Session R → Type 1 where
  stays : {s : Session R} → Steps s s
  asks :
      {C : Type 0} {s t : Session R} (words : List Text) (cb : Option (Callback C)) (ctx : C)
      → is_change words ≡ false
      → Steps (ros_command s words cb ctx).2 t
      → Steps s t
  waits : {s t : Session R} → Steps (sleep s) t → Steps s t
  removes :
      {s t : Session R} (name : Text)
      → is_stage_name name ≡ true
      → is_neg (lookup_name_exact s name).0 ≡ false
      → (lookup_name_exact s name).1.found ≡ true
      → Steps (remove_id (lookup_name_exact s name).2 (lookup_name_exact s name).1.id).1 t
      → Steps s t
  adds :
      {s t : Session R} (name source comment : Text)
      → is_stage_name name ≡ true
      → Steps (add_stage s name source comment).1 t
      → Steps s t

pub not-false : {b : Bool} → not b ≡ false → b ≡ true
not-false {b = true} h = refl
not-false {b = false} h = ground arith

pub all_staged : All (λ n. is_stage_name n ≡ true) stage_names
unfolding stage_names is_stage_name codes str_eq
all_staged = (refl, (refl, (refl, (refl, tt))))

module _ {R : Router} where
  pub Steps-trans : {s t u : Session R} → Steps s t → Steps t u → Steps s u
  Steps-trans stays b = b
  Steps-trans (asks words cb ctx p a) b = asks words cb ctx p (Steps-trans a b)
  Steps-trans (waits a) b = waits (Steps-trans a b)
  Steps-trans (removes name i n f a) b = removes name i n f (Steps-trans a b)
  Steps-trans (adds name source comment i a) b = adds name source comment i (Steps-trans a b)

  pub looks :
      {t : Session R} (s : Session R) (name : Text)
      → Steps (lookup_name_exact s name).2 t
      → Steps s t
  unfolding lookup_name_exact is_change ends_with codes str_eq
  looks s name a = asks _ _ _ refl a

  pub Steps-lookup_loop : (n : ℕ) (s : Session R) (name : Text) → Steps s (lookup_loop n s name).1
  unfolding lookup_loop
  Steps-lookup_loop zero s name = stays
  Steps-lookup_loop (suc n) s name =
      if-second (Steps s) _ _ _ (λ h. looks s name stays)
        (λ h. looks s name (waits (Steps-lookup_loop n _ name)))

  pub Steps-verify_gone : (s : Session R) (name : Text) → Steps s (verify_gone s name).1
  unfolding verify_gone
  Steps-verify_gone s name =
      if-second (Steps s) _ _ _ (λ h. looks s name stays) (λ h. looks s name (waits stays))

  pub Steps-remove_attempt :
      (s : Session R) (name : Text) → is_stage_name name ≡ true → Steps s (remove_attempt s name).1
  unfolding remove_attempt
  Steps-remove_attempt s name i =
      if-second (Steps s) _ _ _ (λ h. looks s name (waits stays))
        (λ ok.
          if-second (Steps s) _ _ _ (λ h. looks s name stays)
            (λ found.
              if-second (Steps s) _ _ _
                (λ h. removes name i ok (not-false found) (waits (Steps-verify_gone _ name)))
                (λ h. removes name i ok (not-false found) (waits stays))))

  pub Steps-remove_loop :
      (n : ℕ) (s : Session R) (name : Text)
      → is_stage_name name ≡ true
      → Steps s (remove_loop n s name).1
  unfolding remove_loop
  Steps-remove_loop zero s name i = stays
  Steps-remove_loop (suc n) s name i =
      let once = Steps-remove_attempt s name i in
      if-second (Steps s) _ _ _ (λ h. once) (λ h. Steps-trans once (Steps-remove_loop n _ name i))

  pub Steps-remove_name_exact :
      (s : Session R) (name : Text)
      → is_stage_name name ≡ true
      → Steps s (remove_name_exact s name).1
  unfolding remove_name_exact
  Steps-remove_name_exact s name i = Steps-remove_loop 5 s name i

  Steps-read_back :
      (s : Session R) (name : Text) (script : RenderedScript) → Steps s (read_back s name script).1
  unfolding read_back lookup_with_retry
  Steps-read_back s name script = Steps-lookup_loop 15 s name

  Steps-clean_one :
      (s : Session R) (name : Text) → is_stage_name name ≡ true → Steps s (clean_one s name).1
  unfolding clean_one
  Steps-clean_one s name i =
      let looked = lookup_name_exact s name in
      let removed = looks s name (Steps-remove_name_exact looked.2 name i) in
      elim (Bool-cases (is_neg looked.0)) [
        | inl e ↦ rw (e) (looks s name stays)
        | inr e ↦ elim (Bool-cases looked.1.found) [
          | inl f ↦ rw (e) (rw (f) (if-second (Steps s) _ _ _ (λ h. removed) (λ h. removed)))
          | inr f ↦ rw (e) (rw (f) (looks s name stays))
        ]
      ]

  Steps-clean_loop :
      (names : List Text) (failed : ℕ) (s : Session R)
      → All (λ n. is_stage_name n ≡ true) names
      → Steps s (clean_loop names failed s).1
  unfolding clean_loop
  Steps-clean_loop [] failed s a = stays
  Steps-clean_loop (name ∷ names) failed s (i, a) =
      Steps-trans (Steps-clean_one s name i) (Steps-clean_loop names _ _ a)

  Steps-pre_clean :
      (names : List Text) (s : Session R)
      → All (λ n. is_stage_name n ≡ true) names
      → Steps s (pre_clean names s).1
  unfolding pre_clean
  Steps-pre_clean [] s a = stays
  Steps-pre_clean (name ∷ names) s (i, a) =
      let once = Steps-remove_name_exact s name i in
      if-second (Steps s) _ _ _ (λ h. once) (λ h. Steps-trans once (Steps-pre_clean names _ a))

  Steps-roll_back :
      (names : List Text) (s : Session R)
      → All (λ n. is_stage_name n ≡ true) names
      → Steps s (roll_back names s)
  unfolding roll_back
  Steps-roll_back [] s a = stays
  Steps-roll_back (name ∷ names) s (i, a) =
      Steps-trans (Steps-remove_name_exact s name i) (Steps-roll_back names _ a)

  Steps-stage_one :
      (s : Session R) (name : Text) (script : RenderedScript)
      → is_stage_name name ≡ true
      → Steps s (stage_one s name script).1
  unfolding stage_one
  Steps-stage_one s name script i =
      if-second (Steps s) _ _ _ (λ h. adds name script.source (stage_comment script) i stays)
        (λ h. adds name script.source (stage_comment script) i (Steps-read_back _ name script))

  Steps-stage_loop :
      (names : List Text) (scripts : List RenderedScript) (passed : ℕ) (s : Session R)
      → All (λ n. is_stage_name n ≡ true) names
      → Steps s (stage_loop names scripts passed s).2
  unfolding stage_loop
  Steps-stage_loop [] scripts passed s a = stays
  Steps-stage_loop (name ∷ names) [] passed s a = stays
  Steps-stage_loop (name ∷ names) (script ∷ scripts) passed s (i, a) =
      let once = Steps-stage_one s name script i in
      elim (Bool-cases (stage_one s name script).0) [
        | inl e ↦ rw (e) (Steps-trans once (Steps-stage_loop names scripts (suc passed) _ a))
        | inr e ↦ rw (e) once
      ]

  Steps-stage_bundle : (desired : RenderBundle) (s : Session R) → Steps s (stage_bundle desired s).1
  unfolding stage_bundle
  Steps-stage_bundle desired s =
      let cleaned = pre_clean stage_names s in
      let staged = stage_loop stage_names desired.scripts 0 cleaned.1 in
      let first = Steps-pre_clean stage_names s all_staged in
      let both =
        Steps-trans first (Steps-stage_loop stage_names desired.scripts 0 cleaned.1 all_staged) in
      elim (Bool-cases cleaned.0) [
        | inr e ↦ rw (e) first
        | inl e ↦ elim (Bool-cases staged.1) [
          | inr f ↦
              rw (e) (rw (f) (Steps-trans both (Steps-roll_back stage_names staged.2 all_staged)))
          | inl f ↦ rw (e) (rw (f) (if-second (Steps s) _ _ _ (λ h. both) (λ h. both)))
        ]
      ]

  Steps-query_lan :
      (read_file : Text → Option Text) (cfg : Settings) (s : Session R)
      → Steps s (query_lan read_file cfg s).1
  unfolding query_lan is_change ends_with codes str_eq
  Steps-query_lan read_file cfg s =
      let first = ros_command s member_words (some (member_cb cfg.lan)) no_ctx in
      let one = asks member_words (some (member_cb cfg.lan)) no_ctx refl stays in
      let two =
        Steps-trans one (asks address_words (some (addr_cb cfg.egress)) first.1 refl stays) in
      elim (Bool-cases (is_neg first.0)) [
        | inl e ↦ rw (e) one
        | inr e ↦ rw (e) (if-second (Steps s) _ _ _ (λ h. two) (λ h. two))
      ]

  Steps-renderer_build :
      (read_file : Text → Option Text) (cfg : Settings) (s : Session R)
      → Steps s (renderer_build read_file cfg s).1
  unfolding renderer_build
  Steps-renderer_build read_file cfg s =
      if-second (Steps s) _ _ _ (λ h. stays) (λ h. Steps-query_lan read_file cfg s)

  Steps-stage_run :
      (read_file : Text → Option Text) (cfg : Settings) (s : Session R)
      → Steps s (stage_run read_file cfg s).1
  unfolding stage_run
  Steps-stage_run read_file cfg s =
      let built = Steps-renderer_build read_file cfg s in
      elim (Option-cases (renderer_build read_file cfg s).0) [
        | inl e ↦ rw (e, stage_run) built
        | inr (desired, e) ↦ rw (e, stage_run) (Steps-trans built (Steps-stage_bundle desired _))
      ]

  -- Staging and its cleanup, whatever the router answers and wherever they fail, ask, wait, remove only
  -- the script that a look has just shown under one of the four stage names, and add only under these.
  pub stage-Steps :
      (read_file : Text → Option Text) (cfg : Settings) (s : Session R)
      → Steps s (stage_run read_file cfg s).1 × Steps s (stage_clean_run s).1
  unfolding stage_clean_run
  stage-Steps read_file cfg s = (
    Steps-stage_run read_file cfg s,
    if-second (Steps s) _ _ _ (λ h. Steps-clean_loop stage_names 0 s all_staged)
        (λ h. Steps-clean_loop stage_names 0 s all_staged),
  )
