-- ===== src/Gc/Lazy/Shape.antt =====
-- About `lazy_collect_cb` of src/gc.c: the shape of a lazy rule.
use susanin.Prelude.{◌≡◌, refl, true, false, ◌||◌, Option, none, some, arith}
use susanin.Prelude.{Bool-cases, Option-cases, inl, inr}
use susanin.Prelude.Text.{Text, str_eq_iff}
use susanin.Prelude.Decimal.{is_empty}
use susanin.Ros.Sentence.{Sentence}
use susanin.Gc.Names.{
  Kind, test, ok, kind_eq, state_name, parse_port, make_state_list, LazyName, parse_lazy_comment,
}
use susanin.Gc.Lazy.{LazyCandidate, with_name, shape_matches, judge_shape, lazy_candidate}

-- The rule is the one that its comment names: the comment parses, its protocol, port and state are the
-- rule's own, and the rule marks what stands in the address list of just these three.
pub record IsExact (item : LazyCandidate) : Type 0 where
  pub parsed : item.parsed ≡ true
  pub same_kind : item.parsed_kind ≡ item.query_kind
  pub same_proto : item.protocol ≡ item.parsed_proto
  pub same_port : parse_port (some item.dst_port) ≡ some item.parsed_port
  pub own_list :
      item.dst_list
      ≡ make_state_list (state_name item.parsed_kind) item.parsed_proto item.parsed_port

kind_eq-same : (a b : Kind) → kind_eq a b ≡ true → a ≡ b
unfolding kind_eq
kind_eq-same test test h = refl
kind_eq-same test ok h = cc
kind_eq-same ok test h = cc
kind_eq-same ok ok h = refl

shape_matches-IsExact :
    (item : LazyCandidate) → item.parsed ≡ true → shape_matches item ≡ true → IsExact item
unfolding shape_matches
shape_matches-IsExact item p h = elim (Option-cases (parse_port (some item.dst_port))) [
  | inl e ↦ cc (rw (e, shape_matches) at h)
  | inr (port, e) ↦
      let all = rw (e, shape_matches) at h in
      record {
        parsed = p;
        same_kind = kind_eq-same item.parsed_kind item.query_kind (ground arith);
        same_proto = (str_eq_iff item.protocol item.parsed_proto).0 (ground arith);
        same_port = ground arith;
        own_list =
            (str_eq_iff item.dst_list (
                make_state_list (state_name item.parsed_kind) item.parsed_proto item.parsed_port)).0
              (ground arith);
      }
]

with_name-fresh :
    (n : Option LazyName) (item : LazyCandidate)
    → item.shape_valid ≡ false
    → (with_name n item).shape_valid ≡ false
unfolding with_name
with_name-fresh none item h = h
with_name-fresh (some n) item h = h

-- Nothing is well-shaped that was so before it was judged.
judge_shape-IsExact :
    (item : LazyCandidate)
    → item.shape_valid ≡ false
    → (judge_shape item).shape_valid ≡ true
    → IsExact (judge_shape item)
unfolding judge_shape
judge_shape-IsExact item fresh h =
    elim (Bool-cases (
      is_empty item.id
      || is_empty item.protocol
      || is_empty item.dst_port
      || is_empty item.dst_list)) [
        | inl e ↦ cc (rw (e, judge_shape) at h)
        | inr e ↦
            let m = shape_matches-IsExact item (ground arith) (ground arith) in
            rw (e, judge_shape)
              (record {
                parsed = m.parsed;
                same_kind = m.same_kind;
                same_proto = m.same_proto;
                same_port = m.same_port;
                own_list = m.own_list;
              })
      ]

-- A reply that becomes a well-shaped candidate of its kind is exactly the rule that its comment names.
pub lazy_candidate-IsExact :
    (kind : Kind) (comment : Text) (s : Sentence)
    → (lazy_candidate kind comment s).shape_valid ≡ true
    → IsExact (lazy_candidate kind comment s)
unfolding lazy_candidate
lazy_candidate-IsExact kind comment s h =
    judge_shape-IsExact (with_name (parse_lazy_comment comment) _)
      (with_name-fresh (parse_lazy_comment comment) _ refl) h
