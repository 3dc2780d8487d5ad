-- ===== src/Apply.antt =====
-- `apply_dry_run` of src/apply.c: what an application would have to change. What the program prints is
-- left out but for the counts and the result, and allocation is taken to succeed.
pub mod Rules
pub mod Quiet
pub mod InSync
use susanin.Prelude.{
  ℕ, zero, suc, ◌+◌, ◌%◌, ◌^◌, Bool, true, false, not, ◌&&◌, ◌||◌, List, [], ◌∷◌, ◌++◌, Option,
  none, some, ◌==◌, map_some, if◌then◌else◌, length,
}
use susanin.Prelude.Int.{ℤ, pos, minus_one, is_neg}
use susanin.Prelude.Text.{Text, codes, str_eq, copy_to}
use susanin.Prelude.Decimal.{is_empty}
use susanin.Ros.Sentence.{Sentence, is_reply, get_attr}
use susanin.Ros.Command.{Callback}
use susanin.Ros.Session.{Router, Session, ros_command}
use susanin.Fingerprint.{fingerprint_hex}
use susanin.Config.Options.{Settings, TargetMode, interface, routing_table}
use susanin.Renderer.Build.{RenderedScript, RenderBundle, renderer_build}
use susanin.Apply.Rules.{
  MangleLookup, ExpectedMangle, attr_false, mangle_expected, lookup_mangle_exact, mangle_matches,
}

unfoldable pub script_names : List Text
unfolding codes
script_names =
    codes "auto-awg-health"
    ∷ codes "auto-awg-fast"
    ∷ codes "auto-awg-detect"
    ∷ codes "auto-awg-judge"
    ∷ []

-- The names and the intervals of the schedulers.
unfoldable pub expected_schedulers : List (Text × Text)
unfolding codes
expected_schedulers =
    (codes "auto-awg-health", codes "3s")
    ∷ (codes "auto-awg-fast", codes "1s")
    ∷ (codes "auto-awg-detect", codes "2s")
    ∷ (codes "auto-awg-judge", codes "1s")
    ∷ []

-- `script_bytes` and `script_fp` of a script that is present.
pub record ScriptSeen : Type 0 where
  pub bytes : ℕ
  pub fp : Text

-- `apply_ctx_t` without the settings. A script or a scheduler that is not present is `none`.
pub record ApplyCtx : Type 0 where
  pub lan_members : ℕ
  pub egress_found : Bool
  pub egress_running : Bool
  pub table_found : Bool
  pub scripts : List (Option ScriptSeen)
  pub schedulers : List (Option Bool)

abbrev pub no_state : ApplyCtx
no_state = record {
  lan_members = 0;
  egress_found = false;
  egress_running = false;
  table_found = false;
  scripts = none ∷ none ∷ none ∷ none ∷ [];
  schedulers = none ∷ none ∷ none ∷ none ∷ [];
}

-- `a[i] = value`
unfoldable pub set_at : {A : Type 0} → ℕ → A → List A → List A
set_at i value [] = []
set_at zero value (x ∷ xs) = value ∷ xs
set_at (suc i) value (x ∷ xs) = x ∷ set_at i value xs

-- The first index of a name; `none` is -1.
unfoldable pub find_name : Text → List Text → Option ℕ
find_name name [] = none
find_name name (n ∷ names) =
    let more = find_name name names in if str_eq name n then some 0 else map_some (λ i. suc i) more

-- The value of an attribute is there and is `expected`.
unfoldable pub attr_is : Option Text → Text → Bool
attr_is none expected = false
attr_is (some v) expected = str_eq v expected

unfoldable pub lan_cb : Callback ApplyCtx
lan_cb s ctx = elim (get_attr s (codes "interface")) [
  | none ↦ (pos 0, ctx)
  | some iface ↦
      if not (is_reply s (codes "!re")) || is_empty iface
      then (pos 0, ctx)
      else (pos 0, record ctx { lan_members = (ctx.lan_members + 1) % 2 ^ 32 })
]

unfoldable pub iface_cb : Settings → Callback ApplyCtx
unfolding attr_is attr_false
iface_cb cfg s ctx =
    if not (is_reply s (codes "!re"))
      || is_empty cfg.egress
      || not (attr_is (get_attr s (codes "name")) cfg.egress)
    then (pos 0, ctx)
    else (
      pos 0,
      record ctx {
        egress_found = true;
        egress_running =
            attr_is (get_attr s (codes "running")) (codes "true")
            && attr_false (get_attr s (codes "disabled"));
      },
    )

unfoldable pub table_cb : Settings → Callback ApplyCtx
unfolding attr_is
table_cb cfg s ctx =
    if is_reply s (codes "!re")
      && not (is_empty cfg.table)
      && attr_is (get_attr s (codes "name")) cfg.table
    then (pos 0, record ctx { table_found = true })
    else (pos 0, ctx)

-- The slot of the name that a reply shows.
unfoldable pub slot_of : List Text → Sentence → Option ℕ
unfolding find_name
slot_of names s = elim (get_attr s (codes "name")) [
  | none ↦ none
  | some name ↦ if is_reply s (codes "!re") then find_name name names else none
]

unfoldable pub script_seen : Sentence → ScriptSeen
script_seen s =
    let source : Text = elim (get_attr s (codes "source")) [ none ↦ [] | some t ↦ t ] in
    record { bytes = length source; fp = fingerprint_hex source }

unfoldable pub script_cb : Callback ApplyCtx
unfolding slot_of script_names script_seen set_at
script_cb s ctx = elim (slot_of script_names s) [
  | none ↦ (pos 0, ctx)
  | some i ↦ (pos 0, record ctx { scripts = set_at i (some (script_seen s)) ctx.scripts })
]

-- The scheduler at the slot of the reply, tested; none for a name of no slot.
unfoldable pub put_scheduler :
    List (Text × Text) → Sentence → List (Option Bool) → List (Option Bool)
unfolding attr_is attr_false
put_scheduler [] s slots = slots
put_scheduler (e ∷ es) s [] = []
put_scheduler (e ∷ es) s (slot ∷ slots) =
    let ok =
      attr_is (get_attr s (codes "interval")) e.1
      && attr_is (get_attr s (codes "on-event")) e.0
      && attr_false (get_attr s (codes "disabled")) in
    let more = put_scheduler es s slots in
    if attr_is (get_attr s (codes "name")) e.0 then some ok ∷ slots else slot ∷ more

unfoldable pub scheduler_cb : Callback ApplyCtx
unfolding put_scheduler expected_schedulers
scheduler_cb s ctx =
    if is_reply s (codes "!re")
    then (pos 0, record ctx { schedulers = put_scheduler expected_schedulers s ctx.schedulers })
    else (pos 0, ctx)

abbrev pub lan_words : Settings → List Text
lan_words cfg =
    codes "/interface/list/member/print"
    ∷ codes "=.proplist=interface"
    ∷ copy_to 256 (codes "?list=" ++ cfg.lan)
    ∷ []

abbrev pub iface_words : List Text
iface_words = codes "/interface/print" ∷ codes "=.proplist=name,running,disabled" ∷ []

abbrev pub table_words : List Text
table_words = codes "/routing/table/print" ∷ codes "=.proplist=name" ∷ []

abbrev pub script_words : List Text
script_words = codes "/system/script/print" ∷ codes "=.proplist=name,source" ∷ []

abbrev pub scheduler_words : List Text
scheduler_words =
    codes "/system/scheduler/print" ∷ codes "=.proplist=name,interval,on-event,disabled" ∷ []

-- The verdict on an object: it stays, is missing, or differs.
pub data Action : Type 0 where
  keep : Action
  create : Action
  update : Action

unfoldable pub script_action : Option ScriptSeen → RenderedScript → Action
script_action none desired = create
script_action (some seen) desired =
    if not (seen.bytes == desired.bytes) || not (str_eq seen.fp desired.fp) then update else keep

-- The loop over the scripts; the arrays have the same length.
unfoldable pub script_actions : List (Option ScriptSeen) → List RenderedScript → List Action
unfolding script_action
script_actions [] desired = []
script_actions (slot ∷ slots) [] = create ∷ script_actions slots []
script_actions (slot ∷ slots) (d ∷ ds) = script_action slot d ∷ script_actions slots ds

unfoldable pub scheduler_action : Option Bool → Action
scheduler_action none = create
scheduler_action (some ok) = if ok then keep else update

unfoldable pub scheduler_actions : List (Option Bool) → List Action
unfolding scheduler_action
scheduler_actions [] = []
scheduler_actions (slot ∷ slots) = scheduler_action slot ∷ scheduler_actions slots

unfoldable pub rule_action : Settings → ExpectedMangle → MangleLookup → Action
unfolding mangle_matches
rule_action cfg e found =
    if found.matches == 0
    then create
    else if not (found.matches == 1) || not (mangle_matches found.out e cfg)
    then update
    else keep

-- The actions that the counters count, and the blockers.
pub record Report : Type 0 where
  pub actions : List Action
  pub blockers : ℕ

-- The result that is printed.
pub data Conclusion : Type 0 where
  blocked : Conclusion
  in_sync : Conclusion
  would_change : Conclusion

unfoldable pub is_keep : Action → Bool
is_keep keep = true
is_keep create = false
is_keep update = false

-- `create == 0 && update == 0`
unfoldable pub all_kept : List Action → Bool
unfolding is_keep
all_kept [] = true
all_kept (a ∷ rest) = is_keep a && all_kept rest

unfoldable pub conclude : Report → Conclusion
unfolding all_kept
conclude r =
    if not (r.blockers == 0) then blocked else if all_kept r.actions then in_sync else would_change

-- The egress interface blocks only when the interface was selected itself.
unfoldable pub egress_blocks : TargetMode → ApplyCtx → Bool
egress_blocks interface ctx = not (ctx.egress_found && ctx.egress_running)
egress_blocks routing_table ctx = false

unfoldable pub one_if : Bool → ℕ
one_if b = if b then 1 else 0

unfoldable pub blockers_of : Settings → ApplyCtx → Bool → ℕ
unfolding egress_blocks one_if
blockers_of cfg ctx desired_ok =
    one_if (ctx.lan_members == 0)
    + one_if (egress_blocks cfg.target_mode ctx)
    + one_if (not ctx.table_found)
    + one_if (not desired_ok)

-- The report, with the verdicts on the fixed rules; without a bundle the scripts get none.
unfoldable pub report_of : Settings → ApplyCtx → Option RenderBundle → List Action → Report
unfolding script_actions scheduler_actions blockers_of
report_of cfg ctx none fixed = record {
  actions = scheduler_actions ctx.schedulers ++ fixed;
  blockers = blockers_of cfg ctx false;
}
report_of cfg ctx (some desired) fixed = record {
  actions = script_actions ctx.scripts desired.scripts ++ scheduler_actions ctx.schedulers ++ fixed;
  blockers = blockers_of cfg ctx true;
}

-- The selection that the dry run needs.
unfoldable pub is_incomplete : TargetMode → Settings → Bool
is_incomplete interface cfg = is_empty cfg.table || is_empty cfg.egress
is_incomplete routing_table cfg = is_empty cfg.table

module _ {R : Router} where
  -- A query of `collect`, behind the ones before it; `none` is its -1.
  unfoldable pub and_query :
      List Text → Callback ApplyCtx → Option ApplyCtx × Session R → Option ApplyCtx × Session R
  and_query words cb (none, s) = (none, s)
  and_query words cb (some ctx, s) =
      let (rc, ctx', s') = ros_command s words (some cb) ctx in
      if is_neg rc then (none, s') else (some ctx', s')

  -- `collect`
  unfoldable pub collect_state : Settings → Session R → Option ApplyCtx × Session R
  unfolding and_query lan_cb iface_cb table_cb script_cb scheduler_cb
  collect_state cfg s =
      let members = and_query (lan_words cfg) lan_cb (some no_state, s) in
      let ifaces = and_query iface_words (iface_cb cfg) members in
      let tables = and_query table_words (table_cb cfg) ifaces in
      let scripts = and_query script_words script_cb tables in
      and_query scheduler_words scheduler_cb scripts

  -- The loop over the fixed rules; `none` when one of them could not be looked up.
  unfoldable pub mangle_actions :
      Settings → List ExpectedMangle → Session R → Option (List Action) × Session R
  unfolding lookup_mangle_exact rule_action
  mangle_actions cfg [] s = (some [], s)
  mangle_actions cfg (e ∷ es) s =
      let (rc, found, s') = lookup_mangle_exact s e.comment in
      let (more, s'') = mangle_actions cfg es s' in
      if is_neg rc
      then (none, s')
      else (map_some (λ rest. rule_action cfg e found ∷ rest) more, s'')

  -- Behind the collection.
  unfoldable pub plan :
      (Text → Option Text) → Settings → ApplyCtx → Session R → Option Report × Session R
  unfolding mangle_actions mangle_expected report_of
  plan read_file cfg ctx s =
      let (desired, s1) = renderer_build read_file cfg s in
      let (fixed, s2) = mangle_actions cfg mangle_expected s1 in
      (map_some (report_of cfg ctx desired) fixed, s2)

  -- `apply_dry_run`; the report is none when it returns -1. The files that the renderer can read are a
  -- parameter.
  unfoldable pub apply_dry_run :
      (Text → Option Text) → Settings → Session R → Option Report × Session R
  unfolding is_incomplete collect_state plan
  apply_dry_run read_file cfg s =
      let (collected, s1) = collect_state cfg s in
      if is_incomplete cfg.target_mode cfg
      then (none, s)
      else (elim collected [ none ↦ (none, s1) | some ctx ↦ plan read_file cfg ctx s1 ])
