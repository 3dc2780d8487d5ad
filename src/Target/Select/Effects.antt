-- ===== src/Target/Select/Effects.antt =====
-- About what src/target.c sends.
use susanin.Prelude.{
  ℕ, ◌≡◌, refl, Bool, true, false, not, ◌&&◌, List, [], Option, none, some, inl, inr, arith,
  Bool-cases, Option-cases,
}
use susanin.Prelude.Int.{is_neg}
use susanin.Prelude.Text.{Text, codes, str_eq}
use susanin.Ros.Command.{Callback}
use susanin.Ros.Session.{Router, Session, ros_command}
use susanin.Ros.Session.Log.{
  Issued, Issued-refl, Issued-trans, Issued-weaken, Issued-ros_command, is_change, ends_with,
}
use susanin.Config.Options.{Settings}
use susanin.Target.Interfaces.{
  TargetIface, iface_words, iface_db_cb, find_iface, load_ifaces, table_words, collect,
}
use susanin.Target.Routes.{
  Agreed, nothing_seen, iface_route_cb, route_words, susanin_table_cb, Dedicated,
  dedicated_route_cb, dedicated_words, add_table_words, add_route_words, change, ensure_table,
  settle_route, ensure_route, ensure_dedicated_table,
}
use susanin.Target.Select.{agreed_name, choose_table, with_iface, target_set_interface}

-- What the selection of an interface may send: queries, its own table, and the default route of that
-- table through the interface.
pub data IsTarget (name : Text) : List Text → Type 0 where
  asks : {words : List Text} → is_change words ≡ false → IsTarget name words
  adds_table : IsTarget name add_table_words
  adds_route : IsTarget name (add_route_words name)

module _ {R : Router} (name : Text) where
  abbrev Sends : ℕ → Session R → Session R → Type 0
  Sends k = Issued (IsTarget name) k

  collect-Sends :
      {C : Type 0} (s : Session R) (words : List Text) (cb : Callback C) (start : C)
      → is_change words ≡ false
      → Sends 0 s (collect s words cb start).1
  unfolding collect
  collect-Sends s words cb start h =
      let sent =
        Issued-ros_command (IsTarget name) 0 s words (some cb) start (asks h)
          (rw h (omega arith)) in
      elim (Bool-cases (is_neg (ros_command s words (some cb) start).0)) [
        | inl e ↦ rw (e, collect) sent
        | inr e ↦ rw (e, collect) sent
      ]

  change-Sends :
      (s : Session R) (words : List Text) → IsTarget name words → Sends 1 s (change s words).1
  unfolding change
  change-Sends s words p = Issued-ros_command (IsTarget name) 1 s words none tt p (ground arith)

  ensure_table-Sends : (s : Session R) → Sends 1 s (ensure_table s).1
  unfolding ensure_table is_change ends_with codes str_eq
  ensure_table-Sends s =
      let query = collect s table_words susanin_table_cb false in
      let asked = collect-Sends s table_words susanin_table_cb false refl in
      let only = Issued-weaken (IsTarget name) 0 1 (omega arith) asked in
      elim (Option-cases query.0) [
        | inl e ↦ rw (e, ensure_table) only
        | inr (true, e) ↦ rw (e, ensure_table) only
        | inr (false, e) ↦
            rw (e, ensure_table)
              (Issued-trans (IsTarget name) 0 1 1 (omega arith) asked
                (change-Sends query.1 add_table_words adds_table))
      ]

  settle_route-Sends : (d : Dedicated) (s : Session R) → Sends 1 s (settle_route name d s).1
  unfolding settle_route
  settle_route-Sends d s = elim (Bool-cases (d.conflict && not d.found)) [
    | inl e ↦ rw (e, settle_route) (Issued-refl (IsTarget name) 1 s)
    | inr e ↦ elim (Bool-cases d.found) [
      | inl f ↦ rw (e, settle_route) (rw f (Issued-refl (IsTarget name) 1 s))
      | inr f ↦ rw (e, settle_route) (rw f (change-Sends s (add_route_words name) adds_route))
    ]
  ]

  ensure_route-Sends : (s : Session R) → Sends 1 s (ensure_route s name).1
  unfolding ensure_route is_change ends_with codes str_eq
  ensure_route-Sends s =
      let start : Dedicated = record { found = false; conflict = false } in
      let query = collect s dedicated_words (dedicated_route_cb name) start in
      let asked = collect-Sends s dedicated_words (dedicated_route_cb name) start refl in
      elim (Option-cases query.0) [
        | inl e ↦ rw (e, ensure_route) (Issued-weaken (IsTarget name) 0 1 (omega arith) asked)
        | inr (d, e) ↦
            rw (e, ensure_route)
              (Issued-trans (IsTarget name) 0 1 1 (omega arith) asked
                (settle_route-Sends d query.1))
      ]

  ensure_dedicated_table-Sends : (s : Session R) → Sends 2 s (ensure_dedicated_table s name).1
  unfolding ensure_dedicated_table
  ensure_dedicated_table-Sends s =
      let table = ensure_table-Sends s in
      elim (Bool-cases (ensure_table s).0) [
        | inl e ↦
            rw (e, ensure_dedicated_table)
              (Issued-trans (IsTarget name) 1 1 2 (omega arith) table
                (ensure_route-Sends (ensure_table s).1))
        | inr e ↦
            rw (e, ensure_dedicated_table) (Issued-weaken (IsTarget name) 1 2 (omega arith) table)
      ]

  choose_table-Sends : (a : Option Agreed) (s : Session R) → Sends 2 s (choose_table name a s).1
  unfolding choose_table
  choose_table-Sends none s = Issued-refl (IsTarget name) 2 s
  choose_table-Sends (some a) s =
      let own = ensure_dedicated_table-Sends s in
      elim (Option-cases (agreed_name a)) [
        | inl e ↦ elim (Bool-cases (ensure_dedicated_table s name).0) [
          | inl f ↦ rw (e, choose_table) (rw f own)
          | inr f ↦ rw (e, choose_table) (rw f own)
        ]
        | inr (t, e) ↦ rw (e, choose_table) (Issued-refl (IsTarget name) 2 s)
      ]

  load_ifaces-Sends : (s : Session R) → Sends 0 s (load_ifaces s).1
  unfolding load_ifaces is_change ends_with codes str_eq
  load_ifaces-Sends s = collect-Sends s iface_words iface_db_cb [] refl

  module _ (writes : Bool) (cfg : Settings) where
    with_iface-Sends :
        (i : TargetIface) (s : Session R) → Sends 2 s (with_iface writes cfg name i s).1
    unfolding with_iface is_change ends_with codes str_eq
    with_iface-Sends i s =
        let query = collect s route_words (iface_route_cb name) nothing_seen in
        let choice = choose_table name query.0 query.1 in
        let sent =
          Issued-trans (IsTarget name) 0 2 2 (omega arith)
            (collect-Sends s route_words (iface_route_cb name) nothing_seen refl)
            (choose_table-Sends query.0 query.1) in
        elim (Bool-cases i.disabled) [
          | inl e ↦ rw e (Issued-refl (IsTarget name) 2 s)
          | inr e ↦ elim (Option-cases choice.0) [
            | inl f ↦ rw e (rw (f, with_iface) sent)
            | inr (t, f) ↦ rw e (rw (f, with_iface) sent)
          ]
        ]

    -- However it ends, the selection of an interface sends only queries, the addition of the controller's
    -- own table and that of its default route through the interface, and changes the router at most twice.
    pub Issued-target_set_interface :
        (s : Session R) → Issued (IsTarget name) 2 s (target_set_interface writes cfg name s).1
    unfolding target_set_interface
    Issued-target_set_interface s =
        let query = load_ifaces s in
        let asked = load_ifaces-Sends s in
        let only = Issued-weaken (IsTarget name) 0 2 (omega arith) asked in
        elim (Option-cases query.0) [
          | inl e ↦ rw (e, target_set_interface) only
          | inr (db, e) ↦ elim (Option-cases (find_iface db name)) [
            | inl f ↦ rw (e, target_set_interface) (rw f only)
            | inr (i, f) ↦
                rw (e, target_set_interface)
                  (rw f (
                    Issued-trans (IsTarget name) 0 2 2 (omega arith) asked
                      (with_iface-Sends i query.1)))
          ]
        ]
