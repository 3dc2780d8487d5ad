-- ===== src/StateCleanup/Scan.antt =====
-- The scans of src/state_cleanup.c: `collect_ids` with its callback, and the removals.
-- `strdup` and `realloc` are taken to succeed, so an id vector is a list.
pub mod Found
use susanin.Prelude.{
  ℕ, Bool, true, false, not, ◌&&◌, ◌||◌, List, [], ◌∷◌, ◌++◌, Option, none, some, ltb,
}
use susanin.Prelude.{◌+◌, ◌-◌, ◌^◌, if◌then◌else◌}
use susanin.Prelude.Int.{ℤ, pos, minus_one, is_neg}
use susanin.Prelude.Text.{Text, codes, copy_to}
use susanin.Ros.Sentence.{Sentence, is_reply, get_attr}
use susanin.Ros.Command.{Callback}
use susanin.Ros.Session.{Router, Session, ros_command}
use susanin.StateCleanup.Match.{Matcher}

-- `id_vec_add`: an empty id is refused.
unfoldable pub id_vec_add : List Text → Text → ℤ × List Text
id_vec_add ids [] = (minus_one, ids)
id_vec_add ids (c ∷ cs) = (pos 0, ids ++ ((c ∷ cs) ∷ []))

-- The object that a reply shows, when it matches: `id && *id && match(value, pattern)`.
unfoldable pub matching_id : Text → Matcher → Sentence → Option Text
matching_id attr match s = elim (get_attr s (codes ".id")) [
  | none ↦ none
  | some id ↦ elim id [
    | [] ↦ none
    | c ∷ cs ↦ if match (get_attr s attr) then some (c ∷ cs) else none
  ]
]

unfoldable pub collect_cb : Text → Matcher → Callback (List Text)
unfolding id_vec_add
collect_cb attr match s ids =
    if not (is_reply s (codes "!re"))
    then (pos 0, ids)
    else (elim (matching_id attr match s) [ none ↦ (pos 0, ids) | some id ↦ id_vec_add ids id ])

-- What a scan asks for: the arguments of `collect_ids`.
pub record Target : Type 0 where
  pub print_cmd : Text
  pub remove_cmd : Text
  pub proplist : Text
  pub query : Option Text
  pub attr : Text
  pub match : Matcher

-- `if (query && *query)`
unfoldable pub scan_words : Target → List Text
scan_words t =
    t.print_cmd
    ∷ t.proplist
    ∷ (elim t.query [ none ↦ [] | some q ↦ elim q [ [] ↦ [] | c ∷ cs ↦ (c ∷ cs) ∷ [] ] ])

-- `UINT_MAX`
abbrev pub uint_max : ℕ
uint_max = 2 ^ 32 - 1

unfoldable pub add_stat : ℕ → ℕ → ℕ
add_stat dst value = if ltb (uint_max - dst) value then uint_max else dst + value

-- `=.id=` and the id, in a buffer of 96 bytes.
unfoldable pub id_word : Text → Text
id_word id = copy_to 96 (codes "=.id=" ++ id)

found_ids : ℤ → List Text → Option (List Text)
found_ids rc ids = if is_neg rc then none else some ids

module _ {R : Router} where
  -- `collect_ids`: `none` is its -1.
  unfoldable pub collect_ids : Session R → Target → Option (List Text) × Session R
  unfolding found_ids
  collect_ids s t =
      let (rc, ids, s') = ros_command s (scan_words t) (some (collect_cb t.attr t.match)) [] in
      (found_ids rc ids, s')

  -- `remove_ids_best_effort`: results are ignored.
  unfoldable pub remove_ids_best_effort : Session R → Text → List Text → Session R
  remove_ids_best_effort s cmd [] = s
  remove_ids_best_effort s cmd (id ∷ ids) =
      remove_ids_best_effort (ros_command s (cmd ∷ id_word id ∷ []) none tt).2 cmd ids
