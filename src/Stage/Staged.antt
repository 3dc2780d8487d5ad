-- ===== src/Stage/Staged.antt =====
-- About `stage_run` of src/stage.c when it succeeds.
use susanin.Prelude.{
  ℕ, zero, suc, ◌≡◌, refl, true, false, ◌&&◌, List, [], ◌∷◌, ◌++◌, Option, none, some, Bool-cases,
  Option-cases, inl, inr, arith, ◌==◌,
}
use susanin.Prelude.Int.{is_neg, is_zero}
use susanin.Prelude.Text.{Text, str_eq, str_eq_iff}
use susanin.Ros.Session.{Router, Session, sleep}
use susanin.Ros.Session.Log.{ros_command_sent}
use susanin.Config.Options.{Settings}
use susanin.Renderer.Build.{RenderedScript, RenderBundle, renderer_build}
use susanin.Stage.{
  StageObj, stage_names, lookup_name_exact, lookup_loop, lookup_with_retry, add_words, add_stage,
  stage_comment, is_staged, read_back, stage_one, stage_loop, pre_clean, stage_bundle, stage_run,
}
use susanin.Stage.Shown.{Looked, lookup_name_exact-Looked}
use susanin.Stage.Steps.{Steps, stays, waits, all_staged, looks}
use susanin.Stage.Gone.{AllGone, pre_clean-AllGone, is_zero-is_neg}

-- From `s`, the script was sent to the router under the name, and read back from a complete answer: not
-- invalid, with the size and the fingerprint of what was sent.
pub record Staged {R : Router} (name : Text) (script : RenderedScript) (s s' : Session R)
    : Type 1 where
  pub sent_then :
      (add_stage s name script.source (stage_comment script)).1.sent
      ≡ s.sent ++ (add_words name script.source (stage_comment script) ∷ [])
  pub asked : Session R
  pub led : Steps (add_stage s name script.source (stage_comment script)).1 asked
  pub object : StageObj
  pub looked : Looked name asked (some object)
  pub valid : object.invalid ≡ false
  pub same_size : object.bytes ≡ script.bytes
  pub same_fp : object.fp ≡ script.fp
  pub after : (lookup_name_exact asked name).2 ≡ s'

-- The scripts are staged one after the other.
pub data AllStaged {R : Router}
    : List Text → List RenderedScript → Session R → Session R → Type 1 where
  no_more : {scripts : List RenderedScript} {s : Session R} → AllStaged [] scripts s s
  staged_too :
      {name : Text} {names : List Text} {script : RenderedScript} {scripts : List RenderedScript}
      {s s1 s' : Session R}
      → Staged name script s s1
      → AllStaged names scripts s1 s'
      → AllStaged (name ∷ names) (script ∷ scripts) s s'

-- A whole run: the scripts were rendered, then the names were gone, then the scripts were staged.
pub record StageDone {R : Router} (read_file : Text → Option Text) (cfg : Settings)
    (s s' : Session R) : Type 1 where
  pub desired : RenderBundle
  pub rendered : (renderer_build read_file cfg s).0 ≡ some desired
  pub cleaned : Session R
  pub gone : AllGone stage_names (renderer_build read_file cfg s).1 cleaned
  pub staged : AllStaged stage_names desired.scripts cleaned s'

-- What a look behind some steps has found.
record Found {R : Router} (name : Text) (s s' : Session R) (o : StageObj) : Type 1 where
  asked : Session R
  led : Steps s asked
  looked : Looked name asked (some o)
  after : (lookup_name_exact asked name).2 ≡ s'

staged_parts :
    (script : RenderedScript) (o : StageObj)
    → (o.found && is_staged script o) ≡ true
    → (o.invalid ≡ false) × (o.bytes ≡ script.bytes) × (str_eq o.fp script.fp ≡ true)
unfolding is_staged
staged_parts script o h = ground arith

module _ {R : Router} where
  lookup_loop-Found :
      (n : ℕ) (s : Session R) (name : Text) (o : StageObj)
      → (lookup_loop n s name).0 ≡ some o
      → Found name s (lookup_loop n s name).1 o
  unfolding lookup_loop
  lookup_loop-Found zero s name o h = ground arith
  lookup_loop-Found (suc n) s name o h =
      let call = lookup_name_exact s name in
      elim (Bool-cases (is_zero call.0 && call.1.found)) [
        | inl e ↦
            let answered = is_zero-is_neg call.0 (ground (arith, e)) in
            let found : call.1.found ≡ true = ground (arith, e) in
            let seen = rw found at (lookup_name_exact-Looked s name answered) in
            rw (e, lookup_loop)
              (record {
                asked = s;
                led = stays;
                looked = rw (rw (e, lookup_loop) at h) at seen;
                after = refl;
              })
        | inr e ↦
            let more = lookup_loop-Found n (sleep call.2) name o (rw (e, lookup_loop) at h) in
            rw (e, lookup_loop)
              (record {
                asked = more.asked;
                led = looks s name (waits more.led);
                looked = more.looked;
                after = more.after;
              })
      ]

  read_back-Found :
      (s : Session R) (name : Text) (script : RenderedScript)
      → (read_back s name script).0 ≡ true
      → (o : StageObj) × ((o.found && is_staged script o) ≡ true)
        × Found name s (read_back s name script).1 o
  unfolding read_back lookup_with_retry
  read_back-Found s name script h = elim (Option-cases (lookup_loop 15 s name).0) [
    | inl e ↦ ground (arith, rw (e, read_back) at h)
    | inr (o, e) ↦ (o, rw (e, read_back) at h, lookup_loop-Found 15 s name o e)
  ]

  stage_one-Staged :
      (s : Session R) (name : Text) (script : RenderedScript)
      → (stage_one s name script).0 ≡ true
      → Staged name script s (stage_one s name script).1
  unfolding stage_one
  stage_one-Staged s name script h =
      let added = add_stage s name script.source (stage_comment script) in
      elim (Bool-cases (is_neg added.0)) [
        | inl e ↦ ground (arith, rw (e, stage_one) at h)
        | inr e ↦
            let (o, good, f) = read_back-Found added.1 name script (rw (e, stage_one) at h) in
            let (valid, size, fp) = staged_parts script o good in
            rw (e, stage_one)
              (record {
                sent_then = ros_command_sent s _ none tt e;
                asked = f.asked;
                led = f.led;
                object = o;
                looked = f.looked;
                valid = valid;
                same_size = size;
                same_fp = (str_eq_iff o.fp script.fp).0 fp;
                after = f.after;
              })
      ]

  stage_loop-AllStaged :
      (names : List Text) (scripts : List RenderedScript) (passed : ℕ) (s : Session R)
      → (stage_loop names scripts passed s).1 ≡ true
      → AllStaged names scripts s (stage_loop names scripts passed s).2
  unfolding stage_loop
  stage_loop-AllStaged [] scripts passed s h = no_more
  stage_loop-AllStaged (name ∷ names) [] passed s h = ground arith
  stage_loop-AllStaged (name ∷ names) (script ∷ scripts) passed s h =
      let once = stage_one s name script in
      elim (Bool-cases once.0) [
        | inl e ↦
            rw (e, stage_loop)
              (staged_too (stage_one-Staged s name script e)
                (stage_loop-AllStaged names scripts (suc passed) once.1 (rw (e, stage_loop) at h)))
        | inr e ↦ ground (arith, rw (e, stage_loop) at h)
      ]

  stage_bundle-AllStaged :
      (desired : RenderBundle) (s : Session R)
      → is_neg (stage_bundle desired s).0 ≡ false
      → (cleaned : Session R) × AllGone stage_names s cleaned
        × AllStaged stage_names desired.scripts cleaned (stage_bundle desired s).1
  unfolding stage_bundle
  stage_bundle-AllStaged desired s h =
      let cleaned = pre_clean stage_names s in
      let staged = stage_loop stage_names desired.scripts 0 cleaned.1 in
      elim (Bool-cases cleaned.0) [
        | inr e ↦ ground (arith, rw (e, stage_bundle) at h)
        | inl e ↦ elim (Bool-cases staged.1) [
          | inr f ↦ ground (arith, rw f at (rw (e, stage_bundle) at h))
          | inl f ↦ elim (Bool-cases (staged.0 == 4)) [
            | inr g ↦ ground (arith, rw g at (rw f at (rw (e, stage_bundle) at h)))
            | inl g ↦ (
              cleaned.1,
              pre_clean-AllGone stage_names s all_staged e,
              rw (e, stage_bundle)
                  (rw f (rw g (stage_loop-AllStaged stage_names desired.scripts 0 cleaned.1 f))),
            )
          ]
        ]
      ]

  -- A staging that succeeds has rendered the scripts, seen each of the four names gone, then sent each
  -- script under its name and read it back from a complete answer, not invalid and with the same size and
  -- fingerprint; in between it took the staging steps only.
  pub stage_run_good :
      (read_file : Text → Option Text) (cfg : Settings) (s : Session R)
      → is_neg (stage_run read_file cfg s).0 ≡ false
      → StageDone read_file cfg s (stage_run read_file cfg s).1
  unfolding stage_run
  stage_run_good read_file cfg s h =
      let built = renderer_build read_file cfg s in
      elim (Option-cases built.0) [
        | inl e ↦ ground (arith, rw (e, stage_run) at h)
        | inr (desired, e) ↦
            let (cleaned, gone, staged) =
              stage_bundle-AllStaged desired built.1 (rw (e, stage_run) at h) in
            rw (e, stage_run)
              (record {
                desired = desired;
                rendered = e;
                cleaned = cleaned;
                gone = gone;
                staged = staged;
              })
      ]
