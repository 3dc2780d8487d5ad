-- ===== src/Gc/Lazy.antt =====
-- The lazy per-port mark rules `AUTO-AWG: P`, src/gc.c: scan, decide, remove with verification.
pub mod Scan
pub mod Budget
pub mod Decide
pub mod Shape
pub mod Verified
use susanin.Prelude.{
  ℕ, zero, suc, ◌+◌, Bool, true, false, not, ◌&&◌, ◌||◌, List, [], ◌∷◌, ◌++◌, Option, none, some,
}
use susanin.Prelude.{◌==◌, ltb, leb, length, if◌then◌else◌}
use susanin.Prelude.Int.{ℤ, pos, minus_one}
use susanin.Prelude.Text.{Text, codes, str_eq, starts_with, copy_to}
use susanin.Prelude.Decimal.{is_empty}
use susanin.Ros.Sentence.{Sentence, get_attr}
use susanin.Ros.Command.{Callback}
use susanin.Ros.Session.{Router, Session}
use susanin.Gc.Names.{
  Kind, test, kind_eq, mark_name, state_name, parse_port, make_state_list, LazyName,
  parse_lazy_comment, max_lazy,
}
use susanin.Gc.Queries.{
  text_of, is_re, ask, count_filtered_one, address_list_count, lazy_id_exists, remove_id,
}

-- `lazy_candidate_t`; a comment that does not parse leaves the kind `test` and the port 0 of `memset`.
pub record LazyCandidate : Type 0 where
  pub id : Text
  pub comment : Text
  pub protocol : Text
  pub dst_port : Text
  pub dst_list : Text
  pub query_kind : Kind
  pub parsed_kind : Kind
  pub parsed_proto : Text
  pub parsed_port : ℕ
  pub parsed : Bool
  pub shape_unverifiable : Bool
  pub shape_valid : Bool

unfoldable pub with_name : Option LazyName → LazyCandidate → LazyCandidate
with_name none item = item
with_name (some n) item = record item {
  parsed_kind = n.kind;
  parsed_proto = n.proto;
  parsed_port = n.port;
  parsed = true;
}

-- The last test of `lazy_collect_cb`: the rule is the one that its comment names.
unfoldable pub shape_matches : LazyCandidate → Bool
shape_matches item = elim (parse_port (some item.dst_port)) [
  | none ↦ false
  | some rule_port ↦
      kind_eq item.parsed_kind item.query_kind
      && str_eq item.protocol item.parsed_proto
      && rule_port == item.parsed_port
      && str_eq item.dst_list
          (make_state_list (state_name item.parsed_kind) item.parsed_proto item.parsed_port)
]

unfoldable pub judge_shape : LazyCandidate → LazyCandidate
judge_shape item =
    if is_empty item.id
      || is_empty item.protocol
      || is_empty item.dst_port
      || is_empty item.dst_list
    then record item { shape_unverifiable = true }
    else record item { shape_valid = item.parsed && shape_matches item }

-- The candidate of one reply.
unfoldable pub lazy_candidate : Kind → Text → Sentence → LazyCandidate
unfolding with_name judge_shape
lazy_candidate kind comment s = judge_shape (
    with_name (parse_lazy_comment comment) (record {
      id = copy_to 64 (text_of (get_attr s (codes ".id")));
      comment = copy_to 192 comment;
      protocol = copy_to 16 (text_of (get_attr s (codes "protocol")));
      dst_port = copy_to 32 (text_of (get_attr s (codes "dst-port")));
      dst_list = copy_to 128 (text_of (get_attr s (codes "dst-address-list")));
      query_kind = kind;
      parsed_kind = test;
      parsed_proto = [];
      parsed_port = 0;
      parsed = false;
      shape_unverifiable = false;
      shape_valid = false;
    }))

-- `lazy_collect_ctx_t`
pub record LazyCollect : Type 0 where
  pub items : List LazyCandidate
  pub truncated : Bool

unfoldable pub lazy_collect_cb : Kind → Callback LazyCollect
lazy_collect_cb kind s ctx =
    let comment = text_of (get_attr s (codes "comment")) in
    (
      pos 0,
      if not (is_re s) || not (starts_with (codes "AUTO-AWG: P ") comment)
          then ctx
          else if leb max_lazy (length ctx.items)
          then record ctx { truncated = true }
          else record ctx { items = ctx.items ++ (lazy_candidate kind comment s ∷ []) },
    )

-- `susanin_gc_stats_t`
pub record GcStats : Type 0 where
  pub lazy_removed : ℕ
  pub marked_cleared : ℕ
  pub actions : ℕ
  pub scans_truncated : ℕ
  pub skipped : Bool

module _ {R : Router} where
  -- The scan behind the count; `none` is -1.
  scan_lazy : Kind → Text → Option ℕ → Session R → Option LazyCollect × Session R
  scan_lazy kind query none s = (none, s)
  scan_lazy kind query (some total) s = elim (ltb max_lazy total) [
    | true ↦ (none, s)
    | false ↦
        let (got, s') =
          ask s
            (codes "/ip/firewall/mangle/print"
              ∷ codes
                  "=.proplist=.id,comment,protocol,dst-port,dst-address-list,new-connection-mark,disabled"
              ∷ query
              ∷ [])
            (lazy_collect_cb kind) (record { items = []; truncated = false }) in
        ((elim got [ none ↦ none | some c ↦ if c.truncated then none else some c ]), s')
  ]

  unfoldable pub collect_lazy_kind : Kind → Session R → Option LazyCollect × Session R
  unfolding scan_lazy
  collect_lazy_kind kind s =
      let query = copy_to 128 (codes "?new-connection-mark=" ++ mark_name kind) in
      let (total, s1) = count_filtered_one s (codes "/ip/firewall/mangle/print") query in
      scan_lazy kind query total s1

  -- The result (`true` for 0), the counters and the session.
  unfoldable pub remove_lazy_verified :
      LazyCandidate → GcStats → Session R → Bool × GcStats × Session R
  remove_lazy_verified item stats s =
      let stats1 : GcStats = record stats { actions = stats.actions + 1 } in
      let s1 = remove_id s (codes "/ip/firewall/mangle/remove") item.id in
      let (exists, s2) = lazy_id_exists s1 item.comment item.id in
      (elim exists [
        | none ↦ (false, stats1, s2)
        | some there ↦
            if there
            then (false, stats1, s2)
            else (true, record stats1 { lazy_removed = stats1.lazy_removed + 1 }, s2)
      ])

  -- Whether a rule that can be verified goes: it is malformed, or its list was counted empty twice.
  -- `none` is -1.
  unfoldable pub decide_lazy : LazyCandidate → Session R → Option Bool × Session R
  decide_lazy item s = elim item.shape_valid [
    | false ↦ (some true, s)
    | true ↦
        let list =
          make_state_list (state_name item.parsed_kind) item.parsed_proto item.parsed_port in
        let (count1, s1) = address_list_count s list in
        elim count1 [
          | none ↦ (none, s1)
          | some n ↦ elim (n == 0) [
            | false ↦ (some false, s1)
            | true ↦
                let (count2, s2) = address_list_count s1 list in
                ((elim count2 [ none ↦ none | some m ↦ some (m == 0) ]), s2)
          ]
        ]
  ]

  -- The loop of `process_lazy_kind`: `budget` is what `family_budget` leaves over `used`.
  unfoldable pub process_lazy_kind :
      List LazyCandidate → ℕ → GcStats → Session R → Bool × GcStats × Session R
  process_lazy_kind [] budget stats s = (true, stats, s)
  process_lazy_kind (item ∷ items) zero stats s = (true, stats, s)
  process_lazy_kind (item ∷ items) (suc budget) stats s = elim item.shape_unverifiable [
    | true ↦ process_lazy_kind items (suc budget) stats s
    | false ↦
        let (goes, s1) = decide_lazy item s in
        elim goes [
          | none ↦ (false, stats, s1)
          | some remove ↦ elim remove [
            | false ↦ process_lazy_kind items (suc budget) stats s1
            | true ↦
                let (removed, stats2, s2) = remove_lazy_verified item stats s1 in
                elim removed [
                  | false ↦ (false, stats2, s2)
                  | true ↦ process_lazy_kind items budget stats2 s2
                ]
          ]
        ]
  ]
