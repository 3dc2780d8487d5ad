-- ===== src/Gc/Queries/Prints.antt =====
-- About the queries of src/gc.c: what they send.
use susanin.Prelude.{◌≤◌, ◌≡◌, refl, true, false, List, none, some, arith}
use susanin.Prelude.{if◌then◌else◌}
use susanin.Prelude.Text.{Text, codes, str_eq}
use susanin.Ros.Sentence.{Sentence}
use susanin.Ros.Command.{Callback}
use susanin.Ros.Session.Keeps.{ros_command-keeps}
use mathlib.Core.Path.{subst}
use susanin.Prelude.{Bool-cases, inl, inr}
use susanin.Prelude.Int.{is_neg}
use susanin.Ros.Session.{Router, Session, ros_command}
use susanin.Ros.Session.Log.{Issued, Issued-ros_command, is_change, ends_with}
use susanin.Gc.Commands.{IsGcCommand, inquiry, removal}
use susanin.Gc.Queries.{
  ask, query_script_gate, query_scheduler_gate, query_fixed_gate, managed_job_count,
  count_filtered_one, count_filtered_two_and, address_list_count, lazy_id_exists,
  state_contains_address, remove_id,
}

is_print : (words : List Text) → is_change words ≡ false → (if is_change words then 1 else 0) ≤ 0
is_print words h = ground arith

at_most_one : (words : List Text) → (if is_change words then 1 else 0) ≤ 1
at_most_one words = ground arith

module _ {R : Router} where
  pub Issued-ask :
      {C : Type 0} (s : Session R) (words : List Text) (cb : Callback C) (start : C)
      → is_change words ≡ false
      → Issued IsGcCommand 0 s (ask s words cb start).1
  unfolding ask
  Issued-ask s words cb start h =
      Issued-ros_command IsGcCommand 0 s words (some cb) start (inquiry h) (is_print words h)

  -- What the callback keeps true is true of the answer.
  pub ask-keeps :
      {C : Type 0} (Inv : C → Type 0) (s : Session R) (words : List Text) (cb : Callback C)
      (start got : C)
      → ((st : Sentence) (c : C) → Inv c → Inv (cb st c).1)
      → Inv start
      → (ask s words cb start).0 ≡ some got
      → Inv got
  unfolding ask
  ask-keeps Inv s words cb start got keeps i h =
      elim (Bool-cases (is_neg (ros_command s words (some cb) start).0)) [
        | inl e ↦ cc (rw e at h)
        | inr e ↦ subst Inv (ground arith) (ros_command-keeps Inv cb keeps s words start i)
      ]

  pub Issued-query_script_gate :
      (s : Session R) (name : Text) → Issued IsGcCommand 0 s (query_script_gate s name).1
  unfolding query_script_gate is_change ends_with codes str_eq
  Issued-query_script_gate s name = Issued-ask s _ _ _ refl

  pub Issued-query_scheduler_gate :
      (s : Session R) (name : Text) → Issued IsGcCommand 0 s (query_scheduler_gate s name).1
  unfolding query_scheduler_gate is_change ends_with codes str_eq
  Issued-query_scheduler_gate s name = Issued-ask s _ _ _ refl

  pub Issued-query_fixed_gate :
      (s : Session R) (comment : Text) → Issued IsGcCommand 0 s (query_fixed_gate s comment).1
  unfolding query_fixed_gate is_change ends_with codes str_eq
  Issued-query_fixed_gate s comment = Issued-ask s _ _ _ refl

  pub Issued-managed_job_count :
      (s : Session R) (script : Text) → Issued IsGcCommand 0 s (managed_job_count s script).1
  unfolding managed_job_count is_change ends_with codes str_eq
  Issued-managed_job_count s script = Issued-ask s _ _ _ refl

  pub Issued-count_filtered_one :
      (s : Session R) (print_cmd query : Text)
      → ends_with (codes "/print") print_cmd ≡ true
      → Issued IsGcCommand 0 s (count_filtered_one s print_cmd query).1
  unfolding count_filtered_one is_change
  Issued-count_filtered_one s print_cmd query h = Issued-ask s _ _ _ (rw h refl)

  pub Issued-address_list_count :
      (s : Session R) (list : Text) → Issued IsGcCommand 0 s (address_list_count s list).1
  unfolding address_list_count ends_with codes str_eq
  Issued-address_list_count s list = Issued-count_filtered_one s _ _ refl

  pub Issued-lazy_id_exists :
      (s : Session R) (comment id : Text) → Issued IsGcCommand 0 s (lazy_id_exists s comment id).1
  unfolding lazy_id_exists is_change ends_with codes str_eq
  Issued-lazy_id_exists s comment id = Issued-ask s _ _ _ refl

  pub Issued-state_contains_address :
      (s : Session R) (list address : Text)
      → Issued IsGcCommand 0 s (state_contains_address s list address).1
  unfolding state_contains_address count_filtered_two_and is_change ends_with codes str_eq
  Issued-state_contains_address s list address = Issued-ask s _ _ _ refl

  pub Issued-remove_id :
      (s : Session R) (remove_cmd id : Text)
      → IsGcCommand (removal remove_cmd id)
      → Issued IsGcCommand 1 s (remove_id s remove_cmd id)
  unfolding remove_id
  Issued-remove_id s remove_cmd id p =
      Issued-ros_command IsGcCommand 1 s (removal remove_cmd id) none tt p
        (at_most_one (removal remove_cmd id))
