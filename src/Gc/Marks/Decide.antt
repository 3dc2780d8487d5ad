-- ===== src/Gc/Marks/Decide.antt =====
-- About the decision of `process_mark_kind`, src/gc.c, that a connection mark is stale.
use susanin.Prelude.{◌≡◌, true, false, some, inl, inr, Bool-cases, Option-cases, arith}
use susanin.Prelude.Text.{Text}
use susanin.Ros.Session.{Router, Session}
use susanin.Gc.Names.{state_name, make_state_list}
use susanin.Gc.Queries.{state_contains_address}
use susanin.Gc.Queries.Answers.{Counted, member_count_words, state_contains_address-Counted}
use susanin.Gc.Marks.{MarkCandidate, decide_mark}

-- From `s` to `s'` the router answered two counts of `address` in `list`, one right behind the other, with 0.
pub record SeenAbsent {R : Router} (list address : Text) (s s' : Session R) : Type 0 where
  pub first : Counted s (member_count_words list address) 0
  pub second : Counted (state_contains_address s list address).1 (member_count_words list address) 0
  pub after : (state_contains_address (state_contains_address s list address).1 list address).1 ≡ s'

module _ {R : Router} where
  -- A mark is stale only when the router gave two complete answers, one right behind the other, in which
  -- the exact count of the connection's address in the list of its family, protocol and port is 0.
  pub decide_mark-absent :
      (item : MarkCandidate) (s s' : Session R)
      → decide_mark item s ≡ (some true, s')
      → SeenAbsent (make_state_list (state_name item.kind) item.protocol item.port) item.dst s s'
  unfolding decide_mark
  decide_mark-absent item s s' h =
      let list = make_state_list (state_name item.kind) item.protocol item.port in
      let (found1, s1) = state_contains_address s list item.dst in
      let (found2, s2) = state_contains_address s1 list item.dst in
      elim (Option-cases found1) [
        | inl e ↦ cc (rw (e, decide_mark) at h)
        | inr (there, e) ↦ elim (Bool-cases there) [
          | inl t ↦ ground (arith, rw t at (rw (e, decide_mark) at h))
          | inr t ↦ elim (Option-cases found2) [
            | inl m ↦ cc (rw m at (rw t at (rw (e, decide_mark) at h)))
            | inr (f, m) ↦
                let back = rw m at (rw t at (rw (e, decide_mark) at h)) in
                let none_first : found1 ≡ some false = ground (arith, e, t) in
                let none_second : found2 ≡ some false = ground (arith, m, back) in
                record {
                  first = state_contains_address-Counted s list item.dst none_first;
                  second = state_contains_address-Counted s1 list item.dst none_second;
                  after = ground (arith, back);
                }
          ]
        ]
      ]
