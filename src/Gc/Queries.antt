-- ===== src/Gc/Queries.antt =====
-- The queries of src/gc.c: the gates' lookups by name, exact counts, and searches for an id.
pub mod Prints
pub mod Answers
use susanin.Prelude.{
  ℕ, ◌+◌, ◌-◌, ◌%◌, ◌^◌, Bool, true, false, not, ◌&&◌, ◌||◌, List, [], ◌∷◌, ◌++◌, Option, none,
  some,
}
use susanin.Prelude.{◌==◌, if◌then◌else◌, length, ltb, any}
use susanin.Prelude.Int.{ℤ, pos, minus_one, is_neg}
use susanin.Prelude.Text.{Text, codes, str_eq, copy_to}
use susanin.Prelude.Decimal.{strtoul, Strtoul, is_empty}
use susanin.Ros.Sentence.{Sentence, is_reply, get_attr}
use susanin.Ros.Command.{Callback, is_done}
use susanin.Ros.Session.{Router, Session, ros_command}
use susanin.Fingerprint.{fingerprint_hex}
use susanin.StateCleanup.Match.{attr_true}

abbrev pub text_of : Option Text → Text
text_of none = []
text_of (some s) = s

abbrev pub is_re : Sentence → Bool
is_re s = is_reply s (codes "!re")

-- `value && strcmp(value, wanted) == 0`
abbrev pub same_text : Option Text → Text → Bool
same_text none wanted = false
same_text (some value) wanted = str_eq value wanted

-- `unsigned` counters.
abbrev pub bump : ℕ → ℕ
bump n = (n + 1) % 2 ^ 32

-- `script_gate_ctx_t`
pub record ScriptGate : Type 0 where
  pub count : ℕ
  pub bytes : ℕ
  pub fp : Text
  pub invalid : Bool

unfoldable pub script_gate_cb : Text → Callback ScriptGate
script_gate_cb wanted s g =
    let source = text_of (get_attr s (codes "source")) in
    (
      pos 0,
      if not (is_re s) || not (same_text (get_attr s (codes "name")) wanted) then g else record {
        count = bump g.count;
        bytes = length source;
        fp = fingerprint_hex source;
        invalid = attr_true (get_attr s (codes "invalid"));
      },
    )

-- `scheduler_gate_ctx_t`
pub record SchedulerGate : Type 0 where
  pub count : ℕ
  pub id : Text
  pub on_event : Text
  pub disabled : Bool

unfoldable pub scheduler_gate_cb : Text → Callback SchedulerGate
scheduler_gate_cb wanted s g = (
  pos 0,
  if not (is_re s) || not (same_text (get_attr s (codes "name")) wanted) then g else record {
    count = bump g.count;
    id = copy_to 64 (text_of (get_attr s (codes ".id")));
    on_event = copy_to 128 (text_of (get_attr s (codes "on-event")));
    disabled = attr_true (get_attr s (codes "disabled"));
  },
)

-- `fixed_gate_ctx_t`
pub record FixedGate : Type 0 where
  pub count : ℕ
  pub disabled : Bool

unfoldable pub fixed_gate_cb : Text → Callback FixedGate
fixed_gate_cb wanted s g = (
  pos 0,
  if not (is_re s) || not (same_text (get_attr s (codes "comment")) wanted)
      then g
      else record { count = bump g.count; disabled = attr_true (get_attr s (codes "disabled")) },
)

unfoldable pub count_re_cb : Callback ℕ
count_re_cb s n = (pos 0, if is_re s then bump n else n)

-- `gc_count_only_ctx_t`
pub record CountOnly : Type 0 where
  pub count : ℕ
  pub seen : Bool

-- `ret` of the final reply, within `UINT_MAX`.
unfoldable pub count_value : Option Text → Option ℕ
count_value none = none
count_value (some ret) =
    let r = strtoul ret in
    if is_empty ret || not (is_empty r.end) || ltb (2 ^ 32 - 1) r.value then none else some r.value

unfoldable pub count_only_cb : Callback CountOnly
count_only_cb s c =
    if not (is_done s) then (pos 0, c) else (elim (count_value (get_attr s (codes "ret"))) [
      | none ↦ (minus_one, c)
      | some n ↦ (pos 0, record { count = n; seen = true })
    ])

unfoldable pub id_find_cb : Text → Callback Bool
id_find_cb wanted_id s found =
    (pos 0, if is_re s && same_text (get_attr s (codes ".id")) wanted_id then true else found)

seen_count : Option CountOnly → Option ℕ
seen_count none = none
seen_count (some c) = if c.seen then some c.count else none

module _ {R : Router} where
  -- A query: its result, or `none` for -1, and the session behind it.
  unfoldable pub ask : {C : Type 0} → Session R → List Text → Callback C → C → Option C × Session R
  ask s words cb start =
      let (rc, ctx, s') = ros_command s words (some cb) start in
      ((if is_neg rc then none else some ctx), s')

  unfoldable pub query_script_gate : Session R → Text → Option ScriptGate × Session R
  query_script_gate s name =
      ask s
        (codes "/system/script/print"
          ∷ codes "=.proplist=name,source,invalid"
          ∷ copy_to 192 (codes "?name=" ++ name)
          ∷ [])
        (script_gate_cb name) (record { count = 0; bytes = 0; fp = []; invalid = false })

  unfoldable pub query_scheduler_gate : Session R → Text → Option SchedulerGate × Session R
  query_scheduler_gate s name =
      ask s
        (codes "/system/scheduler/print"
          ∷ codes "=.proplist=.id,name,on-event,disabled"
          ∷ copy_to 192 (codes "?name=" ++ name)
          ∷ [])
        (scheduler_gate_cb name) (record { count = 0; id = []; on_event = []; disabled = false })

  unfoldable pub query_fixed_gate : Session R → Text → Option FixedGate × Session R
  query_fixed_gate s comment =
      ask s
        (codes "/ip/firewall/mangle/print"
          ∷ codes "=.proplist=comment,disabled"
          ∷ copy_to 320 (codes "?comment=" ++ comment)
          ∷ [])
        (fixed_gate_cb comment) (record { count = 0; disabled = false })

  unfoldable pub managed_job_count : Session R → Text → Option ℕ × Session R
  managed_job_count s script =
      ask s
        (codes "/system/script/job/print"
          ∷ codes "=.proplist=script"
          ∷ copy_to 192 (codes "?script=" ++ script)
          ∷ [])
        count_re_cb 0

  unfoldable pub count_filtered_one : Session R → Text → Text → Option ℕ × Session R
  unfolding seen_count
  count_filtered_one s print_cmd query =
      let (c, s') =
        ask s (print_cmd ∷ codes "=count-only=" ∷ query ∷ []) count_only_cb
          (record { count = 0; seen = false }) in
      (seen_count c, s')

  unfoldable pub count_filtered_two_and : Session R → Text → Text → Text → Option ℕ × Session R
  unfolding seen_count
  count_filtered_two_and s print_cmd query1 query2 =
      let (c, s') =
        ask s (print_cmd ∷ codes "=count-only=" ∷ query1 ∷ query2 ∷ codes "?#&" ∷ []) count_only_cb
          (record { count = 0; seen = false }) in
      (seen_count c, s')

  unfoldable pub address_list_count : Session R → Text → Option ℕ × Session R
  address_list_count s list =
      count_filtered_one s (codes "/ip/firewall/address-list/print")
        (copy_to 192 (codes "?list=" ++ list))

  unfoldable pub lazy_id_exists : Session R → Text → Text → Option Bool × Session R
  lazy_id_exists s comment id =
      ask s
        (codes "/ip/firewall/mangle/print"
          ∷ codes "=.proplist=.id,comment"
          ∷ copy_to 320 (codes "?comment=" ++ comment)
          ∷ [])
        (id_find_cb id) false

  -- Whether the list holds the address, by an exact count.
  unfoldable pub state_contains_address : Session R → Text → Text → Option Bool × Session R
  state_contains_address s list address =
      let (n, s') =
        count_filtered_two_and s (codes "/ip/firewall/address-list/print")
          (copy_to 192 (codes "?list=" ++ list)) (copy_to 192 (codes "?address=" ++ address)) in
      ((elim n [ none ↦ none | some k ↦ some (ltb 0 k) ]), s')

  unfoldable pub remove_id : Session R → Text → Text → Session R
  remove_id s remove_cmd id =
      (ros_command s (remove_cmd ∷ copy_to 96 (codes "=.id=" ++ id) ∷ []) none tt).2
