-- ===== src/Stage.antt =====
-- src/stage.c: the rendered scripts put on the router under inert names of their own, and taken off
-- again. What the program prints is left out, and allocation is taken to succeed.
pub mod Shown
pub mod Steps
pub mod Gone
pub mod Staged
use susanin.Prelude.{
  ℕ, zero, suc, Bool, true, false, not, ◌&&◌, ◌||◌, List, [], ◌∷◌, ◌++◌, Option, none, some, ◌==◌,
  length, if◌then◌else◌,
}
use susanin.Prelude.Int.{ℤ, pos, minus_one, is_neg, is_zero}
use susanin.Prelude.Text.{Text, codes, str_eq, copy_to}
use susanin.Prelude.Decimal.{is_empty}
use susanin.Ros.Sentence.{Sentence, is_reply, get_attr}
use susanin.Ros.Command.{Callback}
use susanin.Ros.Session.{Router, Session, ros_command, sleep}
use susanin.Fingerprint.{fingerprint_hex}
use susanin.Config.Options.{Settings}
use susanin.StateCleanup.Match.{attr_true}
use susanin.Renderer.Build.{RenderedScript, RenderBundle, renderer_build}

unfoldable pub stage_names : List Text
unfolding codes
stage_names =
    codes "susanin-stage-health"
    ∷ codes "susanin-stage-fast"
    ∷ codes "susanin-stage-detect"
    ∷ codes "susanin-stage-judge"
    ∷ []

-- `stage_obj_t`
pub record StageObj : Type 0 where
  pub id : Text
  pub name : Text
  pub found : Bool
  pub invalid : Bool
  pub bytes : ℕ
  pub fp : Text

abbrev pub no_object : StageObj
no_object = record { id = []; name = []; found = false; invalid = false; bytes = 0; fp = [] }

-- The script text of a reply; one without a source counts as empty.
unfoldable pub source_of : Sentence → Text
source_of s = elim (get_attr s (codes "source")) [ none ↦ [] | some t ↦ t ]

-- The object that a reply shows, if it has the name and an id.
unfoldable pub object_of : Text → Sentence → Option StageObj
unfolding source_of
object_of wanted s = elim (get_attr s (codes "name")) [
  | none ↦ none
  | some name ↦ elim (get_attr s (codes ".id")) [
    | none ↦ none
    | some id ↦
        if not (is_reply s (codes "!re")) || not (str_eq name wanted) || is_empty id
        then none
        else some (record {
          id = copy_to 64 id;
          name = copy_to 128 name;
          found = true;
          invalid = attr_true (get_attr s (codes "invalid"));
          bytes = length (source_of s);
          fp = fingerprint_hex (source_of s);
        })
  ]
]

unfoldable pub lookup_scan_cb : Text → Callback StageObj
unfolding object_of
lookup_scan_cb wanted s out = (pos 0, (elim (object_of wanted s) [ none ↦ out | some o ↦ o ]))

abbrev pub lookup_words : List Text
lookup_words =
    codes "/system/script/print" ∷ codes "=.proplist=.id,name,source,invalid,comment" ∷ []

abbrev pub remove_words : Text → List Text
remove_words id = codes "/system/script/remove" ∷ (codes "=.id=" ++ id) ∷ []

abbrev pub add_words : Text → Text → Text → List Text
add_words name source comment =
    codes "/system/script/add"
    ∷ (codes "=name=" ++ name)
    ∷ (codes "=source=" ++ source)
    ∷ (codes "=comment=" ++ comment)
    ∷ []

-- The comment of a staged script, in its buffer of 192 bytes.
unfoldable pub stage_comment : RenderedScript → Text
unfolding codes
stage_comment script = copy_to 192 (
    codes "SUSANIN:v0.12.0 staged source for "
    ++ script.name
    ++ codes " fp="
    ++ script.fp
    ++ codes "; DO NOT RUN")

-- What the read-back has to show of a staged script.
unfoldable pub is_staged : RenderedScript → StageObj → Bool
is_staged script o = not o.invalid && o.bytes == script.bytes && str_eq o.fp script.fp

module _ {R : Router} where
  unfoldable pub lookup_name_exact : Session R → Text → ℤ × StageObj × Session R
  unfolding lookup_scan_cb
  lookup_name_exact s name = ros_command s lookup_words (some (lookup_scan_cb name)) no_object

  -- The loop of `lookup_with_retry`; `none` is its -1.
  unfoldable pub lookup_loop : ℕ → Session R → Text → Option StageObj × Session R
  unfolding lookup_name_exact
  lookup_loop zero s name = (none, s)
  lookup_loop (suc n) s name =
      let (rc, o, s') = lookup_name_exact s name in
      let more = lookup_loop n (sleep s') name in
      if is_zero rc && o.found then (some o, s') else more

  unfoldable pub lookup_with_retry : Session R → Text → Option StageObj × Session R
  unfolding lookup_loop
  lookup_with_retry s name = lookup_loop 15 s name

  unfoldable pub remove_id : Session R → Text → ℤ × Session R
  remove_id s id = let (rc, _, s') = ros_command s (remove_words id) none tt in (rc, s')

  -- Behind a removal: does a second look find nothing under the name?
  unfoldable pub verify_gone : Session R → Text → Bool × Session R
  unfolding lookup_name_exact
  verify_gone s name =
      let (rc, o, s') = lookup_name_exact s name in
      if is_zero rc && not o.found then (true, s') else (false, sleep s')

  -- One pass of the loop of `remove_name_exact`: is the name gone?
  unfoldable pub remove_attempt : Session R → Text → Bool × Session R
  unfolding lookup_name_exact remove_id verify_gone
  remove_attempt s name =
      let (rc, o, s1) = lookup_name_exact s name in
      let (rc', s2) = remove_id s1 o.id in
      if is_neg rc
      then (false, sleep s1)
      else if not o.found
      then (true, s1)
      else if is_zero rc'
      then verify_gone (sleep s2) name
      else (false, sleep s2)

  unfoldable pub remove_loop : ℕ → Session R → Text → ℤ × Session R
  unfolding remove_attempt
  remove_loop zero s name = (minus_one, s)
  remove_loop (suc n) s name =
      let (gone, s') = remove_attempt s name in
      let more = remove_loop n s' name in if gone then (pos 0, s') else more

  unfoldable pub remove_name_exact : Session R → Text → ℤ × Session R
  unfolding remove_loop
  remove_name_exact s name = remove_loop 5 s name

  unfoldable pub add_stage : Session R → Text → Text → Text → ℤ × Session R
  add_stage s name source comment =
      let (rc, _, s') = ros_command s (add_words name source comment) none tt in (rc, s')

  -- One name of `stage_clean_run`: is it off the router?
  unfoldable pub clean_one : Session R → Text → Bool × Session R
  unfolding lookup_name_exact remove_name_exact
  clean_one s name =
      let (rc, o, s1) = lookup_name_exact s name in
      let (rc', s2) = remove_name_exact s1 name in
      if is_neg rc
      then (false, s1)
      else if not o.found
      then (true, s1)
      else if is_neg rc'
      then (false, s2)
      else (true, s2)

  -- The loop of `stage_clean_run` over the names, with its count of failures.
  unfoldable pub clean_loop : List Text → ℕ → Session R → ℕ × Session R
  unfolding clean_one
  clean_loop [] failed s = (failed, s)
  clean_loop (name ∷ names) failed s =
      let (gone, s') = clean_one s name in clean_loop names (if gone then failed else suc failed) s'

  unfoldable pub stage_clean_run : Session R → ℤ × Session R
  unfolding clean_loop stage_names
  stage_clean_run s =
      let (failed, s') = clean_loop stage_names 0 s in
      if failed == 0 then (pos 0, s') else (minus_one, s')

  -- The pre-clean: it ends at the first name that cannot be removed.
  unfoldable pub pre_clean : List Text → Session R → Bool × Session R
  unfolding remove_name_exact
  pre_clean [] s = (true, s)
  pre_clean (name ∷ names) s =
      let (rc, s') = remove_name_exact s name in
      let more = pre_clean names s' in if is_neg rc then (false, s') else more

  -- The read-back of a script: is it there as it was sent?
  unfoldable pub read_back : Session R → Text → RenderedScript → Bool × Session R
  unfolding lookup_with_retry is_staged
  read_back s name script =
      let (found, s') = lookup_with_retry s name in
      ((elim found [ none ↦ false | some o ↦ o.found && is_staged script o ]), s')

  -- One script: it is added, read back and compared.
  unfoldable pub stage_one : Session R → Text → RenderedScript → Bool × Session R
  unfolding add_stage stage_comment read_back
  stage_one s name script =
      let (rc, s1) = add_stage s name script.source (stage_comment script) in
      let (good, s2) = read_back s1 name script in if is_neg rc then (false, s1) else (good, s2)

  -- The loop over the scripts: how many were staged before one failed, and whether none did. The names
  -- and the scripts are arrays of the same length.
  unfoldable pub stage_loop : List Text → List RenderedScript → ℕ → Session R → ℕ × Bool × Session R
  unfolding stage_one
  stage_loop [] scripts passed s = (passed, true, s)
  stage_loop (name ∷ names) [] passed s = (passed, false, s)
  stage_loop (name ∷ names) (script ∷ scripts) passed s =
      let (good, s') = stage_one s name script in
      let more = stage_loop names scripts (suc passed) s' in
      if good then more else (passed, false, s')

  -- The rollback removes every name, whatever comes of it.
  unfoldable pub roll_back : List Text → Session R → Session R
  unfolding remove_name_exact
  roll_back [] s = s
  roll_back (name ∷ names) s = roll_back names (remove_name_exact s name).1

  unfoldable pub stage_bundle : RenderBundle → Session R → ℤ × Session R
  unfolding pre_clean stage_loop roll_back stage_names
  stage_bundle desired s =
      let (clean, s1) = pre_clean stage_names s in
      let (passed, good, s2) = stage_loop stage_names desired.scripts 0 s1 in
      if not clean
      then (minus_one, s1)
      else if not good
      then (minus_one, roll_back stage_names s2)
      else if passed == 4
      then (pos 0, s2)
      else (minus_one, s2)

  -- `stage_run`; the files that the renderer can read are a parameter.
  unfoldable pub stage_run : (Text → Option Text) → Settings → Session R → ℤ × Session R
  unfolding renderer_build stage_bundle
  stage_run read_file cfg s =
      let (desired, s1) = renderer_build read_file cfg s in
      elim desired [ none ↦ (minus_one, s1) | some bundle ↦ stage_bundle bundle s1 ]
