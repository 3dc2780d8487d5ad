-- ===== src/Target/Routes.antt =====
-- The route queries of src/target.c: `iface_route_cb`, `dedicated_route_cb`, `table_route_cb`,
-- `susanin_table_cb`, and `ensure_dedicated_table`.
pub mod Unique
use susanin.Prelude.{
  ℕ, Bool, true, false, not, ◌&&◌, ◌||◌, List, [], ◌∷◌, ◌++◌, Option, none, some, if◌then◌else◌,
}
use susanin.Prelude.Int.{ℤ, pos, minus_one, is_neg}
use susanin.Prelude.Text.{Text, codes, str_eq, copy_to}
use susanin.Ros.Sentence.{Sentence, is_reply, get_attr}
use susanin.Ros.Command.{Callback}
use susanin.Ros.Session.{Router, Session, ros_command}
use susanin.Target.Interfaces.{
  TargetIface, bool_true, gateway_uses_iface, extract_iface, table_words, collect,
}

-- A name that routes agree on: what the first one gave, and whether another one differed.
pub record Agreed : Type 0 where
  pub first : Option Text
  pub ambiguous : Bool

abbrev pub nothing_seen : Agreed
nothing_seen = record { first = none; ambiguous = false }

-- The end of `iface_route_cb` and of `table_route_cb`.
unfoldable pub see_name : Agreed → Text → Agreed
see_name a name = elim a.first [
  | none ↦ record a { first = some (copy_to 128 name) }
  | some kept ↦ if str_eq kept name then a else record a { ambiguous = true }
]

-- The table of an enabled default route, outside the main one, of a reply.
unfoldable pub default_table : Sentence → Option Text
unfolding bool_true
default_table s = elim (get_attr s (codes "dst-address")) [
  | none ↦ none
  | some dst ↦ elim (get_attr s (codes "routing-table")) [
    | none ↦ none
    | some table ↦
        if not (is_reply s (codes "!re"))
          || not (str_eq dst (codes "0.0.0.0/0"))
          || bool_true (get_attr s (codes "disabled"))
        then none
        else some table
  ]
]

-- The table of a default route through an interface.
unfoldable pub iface_table : Text → Sentence → Option Text
unfolding default_table
iface_table iface s = elim (default_table s) [
  | none ↦ none
  | some table ↦
      if not (str_eq table (codes "main"))
        && (gateway_uses_iface (get_attr s (codes "gateway")) iface
            || gateway_uses_iface (get_attr s (codes "immediate-gw")) iface)
      then some table
      else none
]

unfoldable pub iface_route_cb : Text → Callback Agreed
unfolding iface_table
iface_route_cb iface s a = elim (iface_table iface s) [
  | none ↦ (pos 0, a)
  | some table ↦ (pos 0, see_name a table)
]

unfoldable pub susanin_table_cb : Callback Bool
susanin_table_cb s found = elim (get_attr s (codes "name")) [
  | none ↦ (pos 0, found)
  | some name ↦
      if is_reply s (codes "!re") && str_eq name (codes "susanin")
      then (pos 0, true)
      else (pos 0, found)
]

-- `dedicated_route_ctx_t`
pub record Dedicated : Type 0 where
  pub found : Bool
  pub conflict : Bool

unfoldable pub dedicated_route_cb : Text → Callback Dedicated
unfolding default_table
dedicated_route_cb iface s d =
    let seen : Dedicated =
      if gateway_uses_iface (get_attr s (codes "gateway")) iface
      then record d { found = true }
      else record d { conflict = true } in
    elim (default_table s) [
      | none ↦ (pos 0, d)
      | some table ↦ if str_eq table (codes "susanin") then (pos 0, seen) else (pos 0, d)
    ]

-- `table_route_ctx_t` without its parameters.
pub record TableRoute : Type 0 where
  pub default_found : Bool
  pub egress : Agreed

-- The interface of a route: by its immediate gateway, or else by its gateway.
unfoldable pub route_iface : List TargetIface → Sentence → Option Text
route_iface ifaces s = elim (extract_iface ifaces (get_attr s (codes "immediate-gw"))) [
  | some iface ↦ some iface
  | none ↦ extract_iface ifaces (get_attr s (codes "gateway"))
]

-- Whether a reply is an enabled default route of a table.
unfoldable pub is_default_of : Text → Sentence → Bool
unfolding default_table
is_default_of wanted s = elim (default_table s) [ none ↦ false | some table ↦ str_eq table wanted ]

unfoldable pub table_route_cb : Text → List TargetIface → Callback TableRoute
unfolding is_default_of route_iface
table_route_cb wanted ifaces s t =
    let egress : Agreed = elim (route_iface ifaces s) [
      | none ↦ t.egress
      | some iface ↦ see_name t.egress iface
    ] in
    if is_default_of wanted s
    then (pos 0, record { default_found = true; egress = egress })
    else (pos 0, t)

abbrev pub route_words : List Text
route_words =
    codes "/ip/route/print"
    ∷ codes "=.proplist=dst-address,gateway,immediate-gw,routing-table,disabled"
    ∷ []

abbrev pub dedicated_words : List Text
dedicated_words =
    codes "/ip/route/print" ∷ codes "=.proplist=dst-address,gateway,routing-table,disabled" ∷ []

abbrev pub add_table_words : List Text
add_table_words = codes "/routing/table/add" ∷ codes "=name=susanin" ∷ codes "=fib=yes" ∷ []

unfoldable pub add_route_words : Text → List Text
unfolding codes
add_route_words iface =
    codes "/ip/route/add"
    ∷ codes "=dst-address=0.0.0.0/0"
    ∷ copy_to 192 (codes "=gateway=" ++ iface)
    ∷ codes "=routing-table=susanin"
    ∷ codes "=distance=1"
    ∷ codes "=comment=SUSANIN: default route via selected target"
    ∷ []

module _ {R : Router} where
  -- One change of the router; true unless it failed.
  unfoldable pub change : Session R → List Text → Bool × Session R
  change s words = let (rc, _, s') = ros_command s words none tt in (not (is_neg rc), s')

  -- The table, which is added when it is not there.
  unfoldable pub ensure_table : Session R → Bool × Session R
  unfolding susanin_table_cb collect change
  ensure_table s =
      let (found, s1) = collect s table_words susanin_table_cb false in
      elim found [
        | none ↦ (false, s1)
        | some there ↦ if there then (true, s1) else change s1 add_table_words
      ]

  -- What the table's routes ask for: nothing but the route, unless another one is in its place.
  unfoldable pub settle_route : Text → Dedicated → Session R → Bool × Session R
  unfolding change
  settle_route iface d s =
      if d.conflict && not d.found
      then (false, s)
      else if d.found
      then (true, s)
      else change s (add_route_words iface)

  -- Its default route through the interface, which is added when the table has none.
  unfoldable pub ensure_route : Session R → Text → Bool × Session R
  unfolding dedicated_route_cb collect settle_route
  ensure_route s iface =
      let (routes, s1) =
        collect s dedicated_words (dedicated_route_cb iface)
          (record { found = false; conflict = false }) in
      elim routes [ none ↦ (false, s1) | some d ↦ settle_route iface d s1 ]

  -- `ensure_dedicated_table`: true is its 0, with the name `susanin`.
  unfoldable pub ensure_dedicated_table : Session R → Text → Bool × Session R
  unfolding ensure_table ensure_route
  ensure_dedicated_table s iface =
      let (ready, s1) = ensure_table s in if ready then ensure_route s1 iface else (false, s1)
