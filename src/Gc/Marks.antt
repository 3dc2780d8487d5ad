-- ===== src/Gc/Marks.antt =====
-- Stale adaptive connection marks, src/gc.c: scan, decide, remove, and verify that all are gone.
pub mod Scan
pub mod Budget
pub mod Decide
pub mod Cleared
pub mod Verified
use susanin.Prelude.{
  ℕ, zero, suc, ◌+◌, Bool, true, false, not, ◌&&◌, ◌||◌, List, [], ◌∷◌, ◌++◌, Option, none, some,
}
use susanin.Prelude.{◌==◌, ltb, leb, length, any, if◌then◌else◌}
use susanin.Prelude.Int.{ℤ, pos}
use susanin.Prelude.Text.{Text, codes, str_eq, copy_to}
use susanin.Prelude.Decimal.{is_empty}
use susanin.Ros.Sentence.{Sentence, get_attr}
use susanin.Ros.Command.{Callback}
use susanin.Ros.Session.{Router, Session, sleep}
use susanin.Gc.Names.{
  Kind, mark_name, state_name, parse_port, make_state_list, is_proto, max_marks, mark_scan_retries,
  mark_verify_retries,
}
use susanin.Gc.Queries.{text_of, is_re, ask, count_filtered_one, state_contains_address, remove_id}
use susanin.Gc.Lazy.{GcStats}

-- `mark_candidate_t`
pub record MarkCandidate : Type 0 where
  pub id : Text
  pub protocol : Text
  pub dst : Text
  pub port : ℕ
  pub valid : Bool
  pub kind : Kind

unfoldable pub mark_candidate : Kind → Sentence → MarkCandidate
mark_candidate kind s =
    let id = copy_to 64 (text_of (get_attr s (codes ".id"))) in
    let protocol = copy_to 16 (text_of (get_attr s (codes "protocol"))) in
    let dst = copy_to 64 (text_of (get_attr s (codes "dst-address"))) in
    let known = not (is_empty id) && not (is_empty dst) && is_proto protocol in
    (elim (parse_port (get_attr s (codes "dst-port"))) [
      | none ↦ record {
        id = id;
        protocol = protocol;
        dst = dst;
        port = 0;
        valid = false;
        kind = kind;
      }
      | some port ↦ record {
        id = id;
        protocol = protocol;
        dst = dst;
        port = if known then port else 0;
        valid = known;
        kind = kind;
      }
    ])

-- `mark_collect_ctx_t`
pub record MarkCollect : Type 0 where
  pub items : List MarkCandidate
  pub truncated : Bool

unfoldable pub mark_collect_cb : Kind → Callback MarkCollect
mark_collect_cb kind s ctx = (
  pos 0,
  if not (is_re s)
      then ctx
      else if leb max_marks (length ctx.items)
      then record ctx { truncated = true }
      else record ctx { items = ctx.items ++ (mark_candidate kind s ∷ []) },
)

-- `verify_marks_cb`: one of the attempted ids is still there.
unfoldable pub verify_marks_cb : List Text → Callback Bool
verify_marks_cb attempted s found = (
  pos 0,
  elim (get_attr s (codes ".id")) [
    | none ↦ found
    | some id ↦ if is_re s && any (str_eq id) attempted then true else found
  ],
)

module _ {R : Router} where
  scan_marks : Kind → Text → Option ℕ → Session R → Option MarkCollect × Session R
  scan_marks kind query none s = (none, s)
  scan_marks kind query (some total) s = elim (ltb max_marks total) [
    | true ↦ (none, s)
    | false ↦
        let (got, s') =
          ask s
            (codes "/ip/firewall/connection/print"
              ∷ codes "=.proplist=.id,protocol,dst-address,dst-port"
              ∷ query
              ∷ [])
            (mark_collect_cb kind) (record { items = []; truncated = false }) in
        ((elim got [ none ↦ none | some c ↦ if c.truncated then none else some c ]), s')
  ]

  unfoldable pub collect_mark_kind_once : Kind → Session R → Option MarkCollect × Session R
  unfolding scan_marks
  collect_mark_kind_once kind s =
      let query = copy_to 128 (codes "?connection-mark=" ++ mark_name kind) in
      let (total, s1) = count_filtered_one s (codes "/ip/firewall/connection/print") query in
      scan_marks kind query total s1

  -- The attempts of `collect_mark_kind`, with a pause between two.
  unfoldable pub collect_mark_loop : ℕ → Kind → Session R → Option MarkCollect × Session R
  collect_mark_loop zero kind s = (none, s)
  collect_mark_loop (suc left) kind s =
      let (got, s') = collect_mark_kind_once kind s in
      elim got [
        | some c ↦ (some c, s')
        | none ↦ elim (left == 0) [
          | true ↦ (none, s')
          | false ↦ collect_mark_loop left kind (sleep s')
        ]
      ]

  unfoldable pub collect_mark_kind : Kind → Session R → Option MarkCollect × Session R
  unfolding collect_mark_loop
  collect_mark_kind kind s = collect_mark_loop mark_scan_retries kind s

  unfoldable pub verify_mark_ids_absent_once :
      Kind → List Text → Session R → Option Bool × Session R
  verify_mark_ids_absent_once kind attempted s =
      ask s
        (codes "/ip/firewall/connection/print"
          ∷ codes "=.proplist=.id"
          ∷ copy_to 128 (codes "?connection-mark=" ++ mark_name kind)
          ∷ [])
        (verify_marks_cb attempted) false

  -- The attempts of `verify_mark_ids_absent`: only a complete answer without the ids ends them well.
  unfoldable pub verify_mark_loop : ℕ → Kind → List Text → Session R → Bool × Session R
  verify_mark_loop zero kind attempted s = (false, s)
  verify_mark_loop (suc left) kind attempted s =
      let (found, s') = verify_mark_ids_absent_once kind attempted s in
      let again : Bool = elim found [ none ↦ true | some f ↦ f ] in
      elim again [
        | false ↦ (true, s')
        | true ↦ elim (left == 0) [
          | true ↦ (false, s')
          | false ↦ verify_mark_loop left kind attempted (sleep s')
        ]
      ]

  unfoldable pub verify_mark_ids_absent : Kind → List Text → Session R → Bool × Session R
  unfolding verify_mark_loop
  verify_mark_ids_absent kind attempted s = verify_mark_loop mark_verify_retries kind attempted s

  -- Whether the mark is stale: its address was twice not in its list. `none` is -1.
  unfoldable pub decide_mark : MarkCandidate → Session R → Option Bool × Session R
  decide_mark item s =
      let list = make_state_list (state_name item.kind) item.protocol item.port in
      let (found1, s1) = state_contains_address s list item.dst in
      elim found1 [
        | none ↦ (none, s1)
        | some there ↦ elim there [
          | true ↦ (some false, s1)
          | false ↦
              let (found2, s2) = state_contains_address s1 list item.dst in
              ((elim found2 [ none ↦ none | some f ↦ some (not f) ]), s2)
        ]
      ]

  -- The loop of `process_mark_kind`: the attempted ids, or `none` for -1.
  unfoldable pub attempt_marks :
      List MarkCandidate
      → ℕ
      → List Text
      → GcStats
      → Session R
      → Option (List Text) × GcStats × Session R
  attempt_marks [] budget attempted stats s = (some attempted, stats, s)
  attempt_marks (item ∷ items) zero attempted stats s = (some attempted, stats, s)
  attempt_marks (item ∷ items) (suc budget) attempted stats s = elim item.valid [
    | false ↦ attempt_marks items (suc budget) attempted stats s
    | true ↦
        let (stale, s1) = decide_mark item s in
        elim stale [
          | none ↦ (none, stats, s1)
          | some goes ↦ elim goes [
            | false ↦ attempt_marks items (suc budget) attempted stats s1
            | true ↦
                attempt_marks items budget (attempted ++ (copy_to 64 item.id ∷ []))
                  (record stats { actions = stats.actions + 1 })
                  (remove_id s1 (codes "/ip/firewall/connection/remove") item.id)
          ]
        ]
  ]

  -- What follows the loop: nothing attempted, or all attempted ids verified to be gone.
  unfoldable pub settle_marks :
      Kind → Option (List Text) → GcStats → Session R → Bool × GcStats × Session R
  settle_marks kind none stats s = (false, stats, s)
  settle_marks kind (some []) stats s = (true, stats, s)
  settle_marks kind (some (id ∷ ids)) stats s =
      let (gone, s') = verify_mark_ids_absent kind (id ∷ ids) s in
      if gone
      then (true, record stats { marked_cleared = stats.marked_cleared + length (id ∷ ids) }, s')
      else (false, stats, s')

  unfoldable pub process_mark_kind :
      Kind → List MarkCandidate → ℕ → GcStats → Session R → Bool × GcStats × Session R
  unfolding attempt_marks settle_marks
  process_mark_kind kind items budget stats s =
      let (attempted, stats1, s1) = attempt_marks items budget [] stats s in
      settle_marks kind attempted stats1 s1
