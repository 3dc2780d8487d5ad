-- ===== src/Target/Interfaces.antt =====
-- What src/target.c reads of interfaces and tables: `iface_db_cb`, `load_ifaces`, `find_iface`,
-- `gateway_uses_iface`, `extract_iface`, `table_list_cb` and `target_list`.
use susanin.Prelude.{
  ℕ, Bool, false, not, ◌||◌, List, [], ◌∷◌, ◌++◌, Option, none, some, leb, length, ◌==◌,
  if◌then◌else◌, map_some,
}
use susanin.Prelude.Int.{pos, is_neg}
use susanin.Prelude.Text.{Text, codes, str_eq, copy_to}
use susanin.Prelude.Decimal.{is_empty}
use susanin.Ros.Sentence.{Sentence, is_reply, get_attr}
use susanin.Ros.Command.{Callback}
use susanin.Ros.Session.{Router, Session, ros_command}

-- `target_iface_t`
pub record TargetIface : Type 0 where
  pub name : Text
  pub kind : Text
  pub running : Bool
  pub disabled : Bool

abbrev pub max_target_ifs : ℕ
max_target_ifs = 128

unfoldable pub bool_true : Option Text → Bool
unfolding str_eq codes
bool_true none = false
bool_true (some s) = str_eq s (codes "true") || str_eq s (codes "yes")

-- The interface that a reply shows, if it has a name.
unfoldable pub iface_of : Sentence → Option TargetIface
unfolding bool_true
iface_of s = elim (get_attr s (codes "name")) [
  | none ↦ none
  | some name ↦
      if is_empty name
      then none
      else some (record {
        name = copy_to 128 name;
        kind = (elim (get_attr s (codes "type")) [ none ↦ codes "?" | some t ↦ copy_to 64 t ]);
        running = bool_true (get_attr s (codes "running"));
        disabled = bool_true (get_attr s (codes "disabled"));
      })
]

unfoldable pub iface_db_cb : Callback (List TargetIface)
unfolding iface_of
iface_db_cb s db =
    let more : List TargetIface = elim (iface_of s) [ none ↦ db | some i ↦ db ++ (i ∷ []) ] in
    if not (is_reply s (codes "!re")) || leb max_target_ifs (length db)
    then (pos 0, db)
    else (pos 0, more)

abbrev pub iface_words : List Text
iface_words = codes "/interface/print" ∷ codes "=.proplist=name,type,running,disabled" ∷ []

unfoldable pub find_iface : List TargetIface → Text → Option TargetIface
find_iface [] name = none
find_iface (i ∷ db) name = if str_eq i.name name then some i else find_iface db name

-- `strrchr(s, mark)`: what stands behind the last `mark`.
unfoldable pub after_last : ℕ → Text → Option Text
after_last mark [] = none
after_last mark (c ∷ cs) = elim (after_last mark cs) [
  | some rest ↦ some rest
  | none ↦ if c == mark then some cs else none
]

-- A gateway names an interface by itself or behind its last `%`.
unfoldable pub gateway_uses_iface : Option Text → Text → Bool
unfolding after_last
gateway_uses_iface none iface = false
gateway_uses_iface (some gateway) iface =
    let behind : Bool = elim (after_last b'%' gateway) [
      | none ↦ false
      | some rest ↦ str_eq rest iface
    ] in
    str_eq gateway iface || behind

-- The name of the known interface that a gateway names.
unfoldable pub extract_iface : List TargetIface → Option Text → Option Text
unfolding after_last find_iface
extract_iface db none = none
extract_iface db (some gateway) =
    let candidate : Text = elim (after_last b'%' gateway) [ none ↦ gateway | some rest ↦ rest ] in
    if is_empty gateway then none else map_some (λ i. i.name) (find_iface db candidate)

unfoldable pub table_list_cb : Callback (List Text)
unfolding bool_true
table_list_cb s names =
    let more : List Text = elim (get_attr s (codes "name")) [
      | none ↦ names
      | some name ↦
          if is_empty name || bool_true (get_attr s (codes "disabled")) || leb 128 (length names)
          then names
          else names ++ (copy_to 128 name ∷ [])
    ] in
    if is_reply s (codes "!re") then (pos 0, more) else (pos 0, names)

abbrev pub table_words : List Text
table_words = codes "/routing/table/print" ∷ codes "=.proplist=name,disabled" ∷ []

-- The interfaces that `target_list` prints.
unfoldable pub enabled_ifaces : List TargetIface → List TargetIface
enabled_ifaces [] = []
enabled_ifaces (i ∷ db) = if i.disabled then enabled_ifaces db else i ∷ enabled_ifaces db

module _ {R : Router} where
  -- What a query has collected, unless it failed.
  unfoldable pub collect :
      {C : Type 0} → Session R → List Text → Callback C → C → Option C × Session R
  collect s words cb start =
      let (rc, ctx, s') = ros_command s words (some cb) start in
      if is_neg rc then (none, s') else (some ctx, s')

  unfoldable pub load_ifaces : Session R → Option (List TargetIface) × Session R
  unfolding collect iface_db_cb
  load_ifaces s = collect s iface_words iface_db_cb []

  -- `target_list`: the interfaces and the tables that it prints; `none` is its -1.
  unfoldable pub target_list : Session R → Option (List TargetIface × List Text) × Session R
  unfolding load_ifaces table_list_cb
  target_list s =
      let (ifaces, s1) = load_ifaces s in
      let (tables, s2) = collect s1 table_words table_list_cb [] in
      elim ifaces [
        | none ↦ (none, s1)
        | some db ↦ (map_some (λ names. (enabled_ifaces db, names)) tables, s2)
      ]
