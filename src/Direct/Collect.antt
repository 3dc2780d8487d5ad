-- ===== src/Direct/Collect.antt =====
-- The queries and removals of src/direct.c: `id_collect_cb`, `remove_matching` and `first_auto_cb`.
pub mod Shown
use susanin.Prelude.{
  ℕ, Bool, true, false, not, ◌&&◌, ◌||◌, List, [], ◌∷◌, ◌++◌, Option, none, some, ltb, length,
  if◌then◌else◌, is_some,
}
use susanin.Prelude.Int.{ℤ, pos, minus_one, is_neg}
use susanin.Prelude.Text.{Text, codes, str_eq, starts_with, copy_to}
use susanin.Prelude.Decimal.{is_empty}
use susanin.Ros.Sentence.{Sentence, is_reply, get_attr}
use susanin.Ros.Command.{Callback}
use susanin.Ros.Session.{Router, Session, ros_command}

-- `collect_mode_t`
pub data CollectMode : Type 0 where
  list : CollectMode
  comment_prefix : CollectMode
  comment_exact : CollectMode

abbrev pub direct_ids_max : ℕ
direct_ids_max = 512

-- Whether a reply is one that the mode looks for.
unfoldable pub is_match : CollectMode → Text → Sentence → Bool
unfolding starts_with codes
is_match list match s = elim (get_attr s (codes "list")) [
  | none ↦ false
  | some value ↦ str_eq value match
]
is_match comment_exact match s = elim (get_attr s (codes "comment")) [
  | none ↦ false
  | some value ↦ str_eq value match
]
is_match comment_prefix match s = elim (get_attr s (codes "comment")) [
  | none ↦ false
  | some value ↦ starts_with match value
]

-- An id goes into the array while there is room.
unfoldable pub collect_id : Bool → Text → List Text → List Text
collect_id matched id ids =
    if not (is_empty id) && matched && ltb (length ids) direct_ids_max
    then ids ++ (copy_to 64 id ∷ [])
    else ids

unfoldable pub id_collect_cb : CollectMode → Text → Callback (List Text)
unfolding collect_id codes
id_collect_cb mode match s ids =
    let found : List Text = elim (get_attr s (codes ".id")) [
      | none ↦ ids
      | some id ↦ collect_id (is_match mode match s) id ids
    ] in
    if is_reply s (codes "!re") then (pos 0, found) else (pos 0, ids)

-- The arguments of `remove_matching`.
pub record Removal : Type 0 where
  pub print_cmd : Text
  pub remove_cmd : Text
  pub proplist : Text
  pub mode : CollectMode
  pub match : Text

unfoldable pub print_words : Removal → List Text
unfolding codes
print_words r = r.print_cmd ∷ copy_to 256 (codes "=.proplist=" ++ r.proplist) ∷ []

unfoldable pub remove_words : Removal → Text → List Text
unfolding codes
remove_words r id = r.remove_cmd ∷ copy_to 96 (codes "=.id=" ++ id) ∷ []

-- The rule in front of which the bypass rule goes: the first one of the controller in its chain.
unfoldable pub is_first_auto : Sentence → Bool
unfolding codes starts_with
is_first_auto s =
    let owned : Bool = elim (get_attr s (codes "comment")) [
      | none ↦ false
      | some c ↦ starts_with (codes "AUTO-AWG:") c || starts_with (codes "SUSANIN:") c
    ] in
    let in_chain : Bool = elim (get_attr s (codes "chain")) [
      | none ↦ false
      | some c ↦ str_eq c (codes "prerouting")
    ] in
    in_chain && owned

unfoldable pub first_auto_cb : Callback (Option Text)
unfolding codes
first_auto_cb s first =
    let found : Option Text = elim (get_attr s (codes ".id")) [
      | none ↦ none
      | some id ↦ if is_first_auto s then some (copy_to 64 id) else none
    ] in
    if is_some first || not (is_reply s (codes "!re")) then (pos 0, first) else (pos 0, found)

module _ {R : Router} where
  -- The loop over the ids; the results of the removals are ignored.
  unfoldable pub remove_each : Removal → List Text → Session R → Session R
  unfolding remove_words
  remove_each r [] s = s
  remove_each r (id ∷ ids) s = remove_each r ids (ros_command s (remove_words r id) none tt).2

  unfoldable pub remove_matching : Session R → Removal → ℤ × Session R
  unfolding print_words remove_each
  remove_matching s r =
      let (rc, ids, s') = ros_command s (print_words r) (some (id_collect_cb r.mode r.match)) [] in
      if is_neg rc then (minus_one, s') else (pos 0, remove_each r ids s')
