-- ===== src/Target/Routes/Unique.antt =====
-- About the names that the route queries of src/target.c collect.
use susanin.Prelude.{
  ◌≡◌, refl, ◌∙◌, Bool, true, false, not, ◌||◌, List, [], ◌∷◌, Option, none, some, all, any, arith,
  if◌then◌else◌, Bool-cases, Option-cases, inl, inr,
}
use susanin.Prelude.Int.{pos}
use susanin.Prelude.Text.{Text, str_eq, copy_to}
use susanin.Ros.Sentence.{Sentence}
use susanin.Ros.Command.Success.{feed}
use susanin.Target.Interfaces.{TargetIface}
use susanin.Target.Routes.{
  Agreed, nothing_seen, see_name, iface_table, iface_route_cb, TableRoute, is_default_of,
  route_iface, table_route_cb,
}

-- The name that all of a list have in common, as the buffer keeps the first one.
unfoldable pub unanimous : List Text → Option Text
unanimous [] = none
unanimous (name ∷ names) =
    if all (str_eq (copy_to 128 name)) names then some (copy_to 128 name) else none

-- The names that replies show, in order.
unfoldable pub shown_names : (Sentence → Option Text) → List Sentence → List Text
shown_names f [] = []
shown_names f (s ∷ ss) = elim (f s) [
  | none ↦ shown_names f ss
  | some name ↦ name ∷ shown_names f ss
]

see_names : Agreed → List Text → Agreed
see_names a [] = a
see_names a (name ∷ names) = see_names (see_name a name) names

-- Behind the first name, only a different one matters.
see_names_started :
    (names : List Text) (kept : Text) (b : Bool)
    → see_names (record { first = some kept; ambiguous = b }) names
      ≡ record { first = some kept; ambiguous = b || not (all (str_eq kept) names) }
unfolding see_names see_name
see_names_started [] kept b = ground arith
see_names_started (name ∷ names) kept b = elim (Bool-cases (str_eq kept name)) [
  | inl e ↦ rw e (see_names_started names kept b)
  | inr e ↦ rw e (see_names_started names kept true ∙ ground arith)
]

-- The name that a query returns: the one that all have in common.
abbrev pub agreed_in : Agreed → Option Text
agreed_in a = if a.ambiguous then none else a.first

see_names-unanimous :
    (names : List Text) → agreed_in (see_names nothing_seen names) ≡ unanimous names
unfolding see_names see_name unanimous
see_names-unanimous [] = refl
see_names-unanimous (name ∷ names) =
    rw (see_names_started names (copy_to 128 name) false) (ground arith)

iface_route_none :
    (iface : Text) (s : Sentence) (a : Agreed)
    → iface_table iface s ≡ none
    → (iface_route_cb iface s a).1 ≡ a
unfolding iface_route_cb
iface_route_none iface s a h = ground arith

iface_route_some :
    (iface : Text) (s : Sentence) (a : Agreed) (table : Text)
    → iface_table iface s ≡ some table
    → (iface_route_cb iface s a).1 ≡ see_name a table
unfolding iface_route_cb
iface_route_some iface s a table h = ground arith

feed-iface_route :
    (iface : Text) (ss : List Sentence) (a : Agreed)
    → feed (iface_route_cb iface) ss a ≡ see_names a (shown_names (iface_table iface) ss)
unfolding shown_names see_names
feed-iface_route iface [] a = refl
feed-iface_route iface (s ∷ ss) a = elim (Option-cases (iface_table iface s)) [
  | inl e ↦ rw (iface_route_none iface s a e) (rw (e, shown_names) (feed-iface_route iface ss a))
  | inr (table, e) ↦
      rw (iface_route_some iface s a table e)
        (rw (e, shown_names) (feed-iface_route iface ss (see_name a table)))
]

-- What the routes through an interface agree on.
pub feed-iface_route-unanimous :
    (iface : Text) (ss : List Sentence)
    → agreed_in (feed (iface_route_cb iface) ss nothing_seen)
      ≡ unanimous (shown_names (iface_table iface) ss)
feed-iface_route-unanimous iface ss =
    rw (feed-iface_route iface ss nothing_seen) (see_names-unanimous _)

pub iface_route_calm :
    (iface : Text) (s : Sentence) (a : Agreed) → (iface_route_cb iface s a).0 ≡ pos 0
unfolding iface_route_cb
iface_route_calm iface s a = ground arith

module _ (wanted : Text) (ifaces : List TargetIface) where
  -- The interface of a default route of the table.
  unfoldable pub default_iface : Sentence → Option Text
  default_iface s = if is_default_of wanted s then route_iface ifaces s else none

  default_iface-cons :
      (s : Sentence) (ss : List Sentence) (o : Option Text)
      → default_iface s ≡ o
      → shown_names default_iface (s ∷ ss) ≡ (elim o [
        | none ↦ shown_names default_iface ss
        | some name ↦ name ∷ shown_names default_iface ss
      ])
  unfolding shown_names
  default_iface-cons s ss o h = rw (h, shown_names) refl

  -- One reply, by the interface that it gives.
  table_route_none :
      (s : Sentence) (t : TableRoute)
      → default_iface s ≡ none
      → (table_route_cb wanted ifaces s t).1
        ≡ record { default_found = t.default_found || is_default_of wanted s; egress = t.egress }
  unfolding table_route_cb default_iface
  table_route_none s t h = ground arith

  table_route_some :
      (s : Sentence) (t : TableRoute) (iface : Text)
      → default_iface s ≡ some iface
      → (table_route_cb wanted ifaces s t).1 ≡ record {
        default_found = t.default_found || is_default_of wanted s;
        egress = see_name t.egress iface;
      }
  unfolding table_route_cb default_iface
  table_route_some s t iface h = ground arith

  feed-table_route :
      (ss : List Sentence) (t : TableRoute)
      → feed (table_route_cb wanted ifaces) ss t ≡ record {
        default_found = t.default_found || any (is_default_of wanted) ss;
        egress = see_names t.egress (shown_names default_iface ss);
      }
  unfolding shown_names see_names
  feed-table_route [] t = ground arith
  feed-table_route (s ∷ ss) t = elim (Option-cases (default_iface s)) [
    | inl e ↦
        rw (table_route_none s t e)
          (rw (default_iface-cons s ss none e) (feed-table_route ss _ ∙ ground arith))
    | inr (iface, e) ↦
        rw (table_route_some s t iface e)
          (rw (default_iface-cons s ss (some iface) e) (feed-table_route ss _ ∙ ground arith))
  ]

  -- What the default routes of a table agree on, and whether there is one.
  pub feed-table_route-unanimous :
      (ss : List Sentence)
      → let t : TableRoute =
          feed
            (table_route_cb wanted ifaces)
            ss
            (record { default_found = false; egress = nothing_seen }) in
        (t.default_found ≡ any (is_default_of wanted) ss)
        × (agreed_in t.egress ≡ unanimous (shown_names default_iface ss))
  feed-table_route-unanimous ss =
      rw (feed-table_route ss (record { default_found = false; egress = nothing_seen }))
        (refl, see_names-unanimous _)

  pub table_route_calm :
      (s : Sentence) (t : TableRoute) → (table_route_cb wanted ifaces s t).0 ≡ pos 0
  unfolding table_route_cb
  table_route_calm s t = ground arith
