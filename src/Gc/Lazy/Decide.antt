-- ===== src/Gc/Lazy/Decide.antt =====
-- About the decision of `process_lazy_kind`, src/gc.c, to remove a rule.
use susanin.Prelude.{◌≡◌, true, false, some, ◌==◌, ◌⊎◌, inl, inr, Bool-cases, Option-cases, arith}
use susanin.Prelude.Text.{Text}
use susanin.Ros.Session.{Router, Session}
use susanin.Gc.Names.{state_name, make_state_list}
use susanin.Gc.Queries.{address_list_count}
use susanin.Gc.Queries.Answers.{Counted, list_count_words, address_list_count-Counted}
use susanin.Gc.Lazy.{LazyCandidate, decide_lazy}

-- From `s` to `s'` the router answered two counts of `list`, one right behind the other, with 0.
pub record CountedEmpty {R : Router} (list : Text) (s s' : Session R) : Type 0 where
  pub first : Counted s (list_count_words list) 0
  pub second : Counted (address_list_count s list).1 (list_count_words list) 0
  pub after : (address_list_count (address_list_count s list).1 list).1 ≡ s'

module _ {R : Router} where
  -- A rule is removed only when it is not the rule that its comment names, or when the router gave two
  -- complete answers, one right behind the other, in which the exact count of the list behind it is 0.
  pub decide_lazy-empty :
      (item : LazyCandidate) (s s' : Session R)
      → decide_lazy item s ≡ (some true, s')
      → (item.shape_valid ≡ false)
        ⊎ CountedEmpty
            (make_state_list (state_name item.parsed_kind) item.parsed_proto item.parsed_port)
            s
            s'
  unfolding decide_lazy
  decide_lazy-empty item s s' h =
      let list = make_state_list (state_name item.parsed_kind) item.parsed_proto item.parsed_port in
      let (c1, s1) = address_list_count s list in
      let (c2, s2) = address_list_count s1 list in
      elim (Bool-cases item.shape_valid) [
        | inr e ↦ inl e
        | inl e ↦ elim (Option-cases c1) [
          | inl n ↦ cc (rw n at (rw (e, decide_lazy) at h))
          | inr (k, n) ↦ elim (Bool-cases (k == 0)) [
            | inr z ↦ ground (arith, rw z at (rw n at (rw (e, decide_lazy) at h)))
            | inl z ↦ elim (Option-cases c2) [
              | inl m ↦ cc (rw m at (rw z at (rw n at (rw (e, decide_lazy) at h))))
              | inr (j, m) ↦
                  let back = rw m at (rw z at (rw n at (rw (e, decide_lazy) at h))) in
                  let zero_first : c1 ≡ some 0 = ground (arith, n, z) in
                  let zero_second : c2 ≡ some 0 = ground (arith, m, back) in
                  inr (record {
                    first = address_list_count-Counted s list 0 zero_first;
                    second = address_list_count-Counted s1 list 0 zero_second;
                    after = ground (arith, back);
                  })
            ]
          ]
        ]
      ]
