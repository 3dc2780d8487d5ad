-- ===== src/Direct/Collect/Shown.antt =====
-- About `remove_matching` of src/direct.c: what it removes.
use susanin.Prelude.{
  ℕ, zero, suc, ◌-◌, ◌≡◌, refl, ap, sym, ◌∙◌, true, false, not, ◌&&◌, List, [], ◌∷◌, ◌++◌, Option,
  none, some, ltb, All, arith, length, length-append, take, if◌then◌else◌, Bool-cases, Option-cases,
  inl, inr,
}
use susanin.Prelude.Int.{ℤ, pos, is_neg}
use susanin.Prelude.Text.{Text, codes, copy_to}
use susanin.Prelude.Decimal.{is_empty}
use susanin.Ros.Sentence.{Sentence, is_reply, get_attr}
use susanin.Ros.Command.{is_done, is_trap}
use susanin.Ros.Command.Drain.{GoesOn}
use susanin.Ros.Command.Success.{feed}
use susanin.Ros.Session.{Router, Session, ros_command}
use susanin.Ros.Session.Calls.{received, ros_command-Complete}
use susanin.Direct.Collect.{
  CollectMode, is_match, collect_id, id_collect_cb, Removal, print_words, remove_each,
  remove_matching, remove_words,
}
use mathlib.Core.List.{append_assoc, append-nil}

module _ (mode : CollectMode) (match : Text) where
  -- The id that a reply gives to the removal.
  unfoldable pub matched_id : Sentence → Option Text
  matched_id s = elim (get_attr s (codes ".id")) [
    | none ↦ none
    | some id ↦
        if is_reply s (codes "!re") && not (is_empty id) && is_match mode match s
        then some (copy_to 64 id)
        else none
  ]

  -- The ids of the replies that match, in order.
  unfoldable pub all_matched : List Sentence → List Text
  all_matched [] = []
  all_matched (s ∷ ss) = elim (matched_id s) [
    | none ↦ all_matched ss
    | some id ↦ id ∷ all_matched ss
  ]

  id_collect_cb_calm : (s : Sentence) (ids : List Text) → (id_collect_cb mode match s ids).0 ≡ pos 0
  unfolding id_collect_cb
  id_collect_cb_calm s ids = ground arith

  -- One reply.
  id_collect_cb_ids :
      (s : Sentence) (ids : List Text) (o : Option Text)
      → matched_id s ≡ o
      → (id_collect_cb mode match s ids).1
        ≡ (elim o [ none ↦ ids | some id ↦ if ltb (length ids) 512 then ids ++ (id ∷ []) else ids ])
  unfolding id_collect_cb collect_id matched_id
  id_collect_cb_ids s ids none h = ground arith
  id_collect_cb_ids s ids (some id) h = ground arith

  -- The array holds the first 512 of them.
  feed-all_matched :
      (ss : List Sentence) (ids : List Text) (n : ℕ)
      → n ≡ 512 - length ids
      → feed (id_collect_cb mode match) ss ids ≡ ids ++ take n (all_matched ss)
  unfolding all_matched
  feed-all_matched [] ids zero h = sym (append-nil ids)
  feed-all_matched [] ids (suc n) h = sym (append-nil ids)
  feed-all_matched (s ∷ ss) ids zero h = elim (Option-cases (matched_id s)) [
    | inl e ↦ rw (id_collect_cb_ids s ids none e) (feed-all_matched ss ids zero h)
    | inr (id, e) ↦
        let full : ltb (length ids) 512 ≡ false = ground arith in
        rw (id_collect_cb_ids s ids (some id) e) (rw full (feed-all_matched ss ids zero h))
  ]
  feed-all_matched (s ∷ ss) ids (suc n) h = elim (Option-cases (matched_id s)) [
    | inl e ↦
        rw (id_collect_cb_ids s ids none e)
          (rw (e, all_matched) (feed-all_matched ss ids (suc n) h))
    | inr (id, e) ↦
        let room : ltb (length ids) 512 ≡ true = ground arith in
        let one_more : n ≡ 512 - length (ids ++ (id ∷ [])) =
          omega (arith, length-append ids (id ∷ [])) in
        rw (id_collect_cb_ids s ids (some id) e) (
          rw room (
            rw (e, all_matched)
              (feed-all_matched ss (ids ++ (id ∷ [])) n one_more
                ∙ append_assoc ids (id ∷ []) (take n (all_matched ss)))))
  ]

-- From `s` to `s'` one removal is sent for each of the ids, in order, and nothing else.
pub data EachRemoved {R : Router} (r : Removal) : List Text → Session R → Session R → Type 0 where
  none_removed : {s : Session R} → EachRemoved r [] s s
  removed_too :
      {id : Text} {ids : List Text} {s s' : Session R}
      → EachRemoved r ids (ros_command s (remove_words r id) none tt).2 s'
      → EachRemoved r (id ∷ ids) s s'

remove_each-EachRemoved :
    {R : Router} (r : Removal) (ids : List Text) (s : Session R)
    → EachRemoved r ids s (remove_each r ids s)
unfolding remove_each
remove_each-EachRemoved r [] s = none_removed
remove_each-EachRemoved r (id ∷ ids) s = removed_too (remove_each-EachRemoved r ids _)

-- A removal as the router answered it: replies to the query without a trap up to `!done`, and right behind
-- the query a removal for each of the first 512 of their matching ids.
pub record Removed {R : Router} (r : Removal) (s s' : Session R) : Type 0 where
  pub before : List Sentence
  pub last : Sentence
  pub left : List Sentence
  pub splits : received s (print_words r) ≡ before ++ (last ∷ left)
  pub quiet : All (λ s. is_trap s ≡ false) before
  pub ongoing : All GoesOn before
  pub ends : is_done last ≡ true
  pub removes :
      EachRemoved r
        (take 512 (all_matched r.mode r.match (before ++ (last ∷ []))))
        (ros_command s (print_words r) (some (id_collect_cb r.mode r.match)) []).2
        s'

-- A removal that does not fail has read complete replies without a trap, and then removes exactly the
-- matching objects among them, in order, up to 512.
pub remove_matching-Removed :
    {R : Router} (r : Removal) (s s' : Session R) (rc : ℤ)
    → remove_matching s r ≡ (rc, s')
    → is_neg rc ≡ false
    → Removed r s s'
unfolding remove_matching
remove_matching-Removed r s s' rc h n =
    let cb = id_collect_cb r.mode r.match in
    let call = ros_command s (print_words r) (some cb) [] in
    elim (Bool-cases (is_neg call.0)) [
      | inl e ↦ ground (arith, rw (e, remove_matching) at h)
      | inr e ↦
          let (left, c) =
            ros_command-Complete s (print_words r) cb [] call.0 call.1 call.2
              (id_collect_cb_calm r.mode r.match) refl e in
          record {
            before = c.before;
            last = c.last;
            left = left;
            splits = c.splits;
            quiet = c.quiet;
            ongoing = c.ongoing;
            ends = c.ends;
            removes =
                let ids_are =
                  c.shown
                  ∙ feed-all_matched r.mode r.match (c.before ++ (c.last ∷ [])) [] 512 refl in
                let ends = ap (λ p. p.1) (rw (e, remove_matching) at h) in
                rw (← ends) (rw (← ids_are) (remove_each-EachRemoved r call.1 call.2));
          }
    ]
