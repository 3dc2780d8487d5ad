-- ===== src/Gc/Gate/Answered.antt =====
-- About the queries of the ownership gate of src/gc.c: what a query that is taken as normal was answered.
use susanin.Prelude.{
  ℕ, ◌≡◌, refl, ap, sym, ◌∙◌, Bool, true, false, not, ◌||◌, List, [], ◌∷◌, ◌++◌, some, arith,
  Bool-cases, inl, inr, some-injective, length,
}
use susanin.Prelude.Int.{is_neg}
use susanin.Prelude.Text.{Text, codes, str_eq, str_eq_iff, copy_to}
use susanin.Fingerprint.{fingerprint_hex}
use susanin.Ros.Sentence.{Sentence, get_attr}
use susanin.Ros.Session.{Router, Session, ros_command}
use susanin.Ros.Session.Calls.{ros_command-Complete}
use susanin.StateCleanup.Match.{attr_true}
use susanin.Gc.Queries.{
  ScriptGate, SchedulerGate, FixedGate, script_gate_cb, scheduler_gate_cb, fixed_gate_cb,
  count_re_cb, text_of, is_re, same_text, ask, query_script_gate, query_scheduler_gate,
  query_fixed_gate, managed_job_count,
}
use susanin.Gc.Queries.Answers.{answer_of}
use susanin.Gc.Gate.{Script, script_is_exact, scheduler_is_normal, fixed_is_normal}
use susanin.Gc.Gate.Shown.{is_named, ShownOnce, ShownNone, ask-ShownOnce, feed-times}

abbrev pub script_words : Text → List Text
script_words name =
    codes "/system/script/print"
    ∷ codes "=.proplist=name,source,invalid"
    ∷ copy_to 192 (codes "?name=" ++ name)
    ∷ []

abbrev pub scheduler_words : Text → List Text
scheduler_words name =
    codes "/system/scheduler/print"
    ∷ codes "=.proplist=.id,name,on-event,disabled"
    ∷ copy_to 192 (codes "?name=" ++ name)
    ∷ []

abbrev pub fixed_words : Text → List Text
fixed_words comment =
    codes "/ip/firewall/mangle/print"
    ∷ codes "=.proplist=comment,disabled"
    ∷ copy_to 320 (codes "?comment=" ++ comment)
    ∷ []

abbrev pub job_words : Text → List Text
job_words script =
    codes "/system/script/job/print"
    ∷ codes "=.proplist=script"
    ∷ copy_to 192 (codes "?script=" ++ script)
    ∷ []

-- The reply shows a script that is not invalid, and whose source has the desired size and fingerprint.
pub record IsWanted (want : Script) (r : Sentence) : Type 0 where
  pub valid : attr_true (get_attr r (codes "invalid")) ≡ false
  pub same_size : length (text_of (get_attr r (codes "source"))) ≡ want.bytes
  pub same_fp : fingerprint_hex (text_of (get_attr r (codes "source"))) ≡ want.fp

-- The reply shows a scheduler that is enabled, and whose event is the script of its name.
pub record IsRunning (name : Text) (r : Sentence) : Type 0 where
  pub enabled : attr_true (get_attr r (codes "disabled")) ≡ false
  pub own_event : copy_to 128 (text_of (get_attr r (codes "on-event"))) ≡ name

-- The reply shows a rule that is enabled.
abbrev pub IsEnabled : Sentence → Type 0
IsEnabled r = attr_true (get_attr r (codes "disabled")) ≡ false

named_parts :
    (attr wanted : Text) (s : Sentence) (b : Bool)
    → is_named attr wanted s ≡ b
    → (not (is_re s) || not (same_text (get_attr s attr) wanted)) ≡ not b
unfolding is_named
named_parts attr wanted s b h = ground arith

exact_parts :
    (want : Script) (g : ScriptGate)
    → script_is_exact want g ≡ true
    → (g.count ≡ 1) × (g.invalid ≡ false) × (g.bytes ≡ want.bytes) × (g.fp ≡ want.fp)
unfolding script_is_exact
exact_parts want g h =
    let same : str_eq g.fp want.fp ≡ true = ground arith in
    (ground arith, ground arith, ground arith, (str_eq_iff g.fp want.fp).0 same)

normal_parts :
    (name : Text) (g : SchedulerGate)
    → scheduler_is_normal name g ≡ true
    → (g.count ≡ 1) × (g.disabled ≡ false) × (g.on_event ≡ name)
unfolding scheduler_is_normal
normal_parts name g h =
    let same : str_eq g.on_event name ≡ true = ground arith in
    (ground arith, ground arith, (str_eq_iff g.on_event name).0 same)

fixed_parts : (g : FixedGate) → fixed_is_normal g ≡ true → (g.count ≡ 1) × (g.disabled ≡ false)
unfolding fixed_is_normal
fixed_parts g h = (ground arith, ground arith)

module _ {R : Router} (s : Session R) where
  pub query_script_gate-ShownOnce :
      (name : Text) (want : Script) (g : ScriptGate)
      → (query_script_gate s name).0 ≡ some g
      → script_is_exact want g ≡ true
      → ShownOnce s (script_words name) (is_named (codes "name") name) (IsWanted want)
  unfolding query_script_gate script_gate_cb
  query_script_gate-ShownOnce name want g h b =
      let (once, valid, size, equal) = exact_parts want g b in
      ask-ShownOnce {V = ℕ × Text × Bool} (script_gate_cb name) (is_named (codes "name") name)
        (λ c. c.count) (λ c. (c.bytes, c.fp, c.invalid))
        (λ st. (
          length (text_of (get_attr st (codes "source"))),
          fingerprint_hex (text_of (get_attr st (codes "source"))),
          attr_true (get_attr st (codes "invalid")),
        ))
        (λ st c e. rw (named_parts (codes "name") name st false e, script_gate_cb) refl)
        (λ st c e. rw (named_parts (codes "name") name st true e, script_gate_cb) refl)
        (λ st c e. rw (named_parts (codes "name") name st true e, script_gate_cb) refl)
        (λ st c. refl) s (script_words name)
        (record { count = 0; bytes = 0; fp = []; invalid = false }) g (IsWanted want) h refl once
        (λ r e. record {
          valid = sym (ap (λ v. v.2) e) ∙ valid;
          same_size = sym (ap (λ v. v.0) e) ∙ size;
          same_fp = sym (ap (λ v. v.1) e) ∙ equal;
        })

  pub query_scheduler_gate-ShownOnce :
      (name : Text) (g : SchedulerGate)
      → (query_scheduler_gate s name).0 ≡ some g
      → scheduler_is_normal name g ≡ true
      → ShownOnce s (scheduler_words name) (is_named (codes "name") name) (IsRunning name)
  unfolding query_scheduler_gate scheduler_gate_cb
  query_scheduler_gate-ShownOnce name g h b =
      let (once, enabled, event) = normal_parts name g b in
      ask-ShownOnce {V = Text × Bool} (scheduler_gate_cb name) (is_named (codes "name") name)
        (λ c. c.count) (λ c. (c.on_event, c.disabled))
        (λ st. (
          copy_to 128 (text_of (get_attr st (codes "on-event"))),
          attr_true (get_attr st (codes "disabled")),
        ))
        (λ st c e. rw (named_parts (codes "name") name st false e, scheduler_gate_cb) refl)
        (λ st c e. rw (named_parts (codes "name") name st true e, scheduler_gate_cb) refl)
        (λ st c e. rw (named_parts (codes "name") name st true e, scheduler_gate_cb) refl)
        (λ st c. refl) s (scheduler_words name)
        (record { count = 0; id = []; on_event = []; disabled = false }) g (IsRunning name) h refl
        once
        (λ r e. record {
          enabled = sym (ap (λ v. v.1) e) ∙ enabled;
          own_event = sym (ap (λ v. v.0) e) ∙ event;
        })

  pub query_fixed_gate-ShownOnce :
      (comment : Text) (g : FixedGate)
      → (query_fixed_gate s comment).0 ≡ some g
      → fixed_is_normal g ≡ true
      → ShownOnce s (fixed_words comment) (is_named (codes "comment") comment) IsEnabled
  unfolding query_fixed_gate fixed_gate_cb
  query_fixed_gate-ShownOnce comment g h b =
      let (once, enabled) = fixed_parts g b in
      ask-ShownOnce (fixed_gate_cb comment) (is_named (codes "comment") comment) (λ c. c.count)
        (λ c. c.disabled) (λ st. attr_true (get_attr st (codes "disabled")))
        (λ st c e. rw (named_parts (codes "comment") comment st false e, fixed_gate_cb) refl)
        (λ st c e. rw (named_parts (codes "comment") comment st true e, fixed_gate_cb) refl)
        (λ st c e. rw (named_parts (codes "comment") comment st true e, fixed_gate_cb) refl)
        (λ st c. refl) s (fixed_words comment) (record { count = 0; disabled = false }) g IsEnabled
        h refl once (λ r e. sym e ∙ enabled)

  pub managed_job_count-ShownNone :
      (script : Text) → (managed_job_count s script).0 ≡ some 0 → ShownNone s (job_words script)
  unfolding managed_job_count ask count_re_cb
  managed_job_count-ShownNone script h =
      let call = ros_command s (job_words script) (some count_re_cb) 0 in
      elim (Bool-cases (is_neg call.0)) [
        | inl e ↦ cc (rw (e, ask) at h)
        | inr e ↦
            let (left, c) =
              ros_command-Complete s (job_words script) count_re_cb 0 call.0 call.1 call.2
                (λ st n. refl) refl e in
            let replies = c.before ++ (c.last ∷ []) in
            let total =
              feed-times count_re_cb is_re (λ n. n) (λ n. tt) (λ st. tt)
                (λ st n k. rw (k, count_re_cb) refl) (λ st n k. rw (k, count_re_cb) refl)
                (λ st n k. refl) replies 0 (omega arith) in
            let none_counted = some-injective (rw (e, ask) at h) in
            record {
              answer = answer_of c;
              counted = omega (arith, sym total ∙ sym c.shown ∙ none_counted);
            }
      ]
