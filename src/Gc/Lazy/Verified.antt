-- ===== src/Gc/Lazy/Verified.antt =====
-- About `process_lazy_kind` and `remove_lazy_verified` of src/gc.c: what a removal has seen.
use susanin.Prelude.{
  ℕ, zero, suc, ◌≡◌, refl, sym, ◌∙◌, Bool, true, false, List, [], ◌∷◌, ◌++◌, Option, none, some,
  All, ◌⊎◌, inl, inr, arith, Bool-cases, Option-cases,
}
use mathlib.Core.Path.{subst}
use susanin.Prelude.Text.{codes}
use susanin.Ros.Session.{Router, Session}
use susanin.Gc.Names.{state_name, make_state_list}
use susanin.Gc.Queries.{lazy_id_exists, remove_id}
use susanin.Gc.Queries.Answers.{Answer, lazy_words, shows_id, lazy_id_exists-Answer}
use susanin.Gc.Lazy.{LazyCandidate, GcStats, decide_lazy, remove_lazy_verified, process_lazy_kind}
use susanin.Gc.Lazy.Decide.{CountedEmpty, decide_lazy-empty}

-- The session behind the removal of a rule.
abbrev pub removal_sent : {R : Router} → LazyCandidate → Session R → Session R
removal_sent item s = remove_id s (codes "/ip/firewall/mangle/remove") item.id

-- From `s` to `s'` the removal of the rule was sent, and right behind it the router answered a query of the
-- rules with that comment in full, in which no reply shows the id.
pub record SeenRemoved {R : Router} (item : LazyCandidate) (s s' : Session R) : Type 0 where
  pub answer : Answer (removal_sent item s) (lazy_words item.comment)
  pub absent : All (λ st. shows_id item.id st ≡ false) (answer.before ++ (answer.last ∷ []))
  pub after : (lazy_id_exists (removal_sent item s) item.comment item.id).1 ≡ s'

-- The candidates in turn, with a budget of removals: each is left alone, kept, or removed.
pub data Processed {R : Router} : List LazyCandidate → ℕ → Session R → Session R → Type 0 where
  no_candidates : {budget : ℕ} {s : Session R} → Processed [] budget s s
  no_budget :
      {item : LazyCandidate} {items : List LazyCandidate} {s : Session R}
      → Processed (item ∷ items) zero s s
  left_alone :
      {item : LazyCandidate} {items : List LazyCandidate} {budget : ℕ} {s s' : Session R}
      → item.shape_unverifiable ≡ true
      → Processed items (suc budget) s s'
      → Processed (item ∷ items) (suc budget) s s'
  kept :
      {item : LazyCandidate} {items : List LazyCandidate} {budget : ℕ} {s s' : Session R}
      → (decide_lazy item s).0 ≡ some false
      → Processed items (suc budget) (decide_lazy item s).1 s'
      → Processed (item ∷ items) (suc budget) s s'
  removed :
      {item : LazyCandidate} {items : List LazyCandidate} {budget : ℕ} {s s1 s2 s' : Session R}
      → item.shape_unverifiable ≡ false
      → ((item.shape_valid ≡ false)
          ⊎ CountedEmpty
              (make_state_list (state_name item.parsed_kind) item.parsed_proto item.parsed_port)
              s
              s1)
      → (decide_lazy item s).1 ≡ s1
      → SeenRemoved item s1 s2
      → Processed items budget s2 s'
      → Processed (item ∷ items) (suc budget) s s'

module _ {R : Router} where
  decision_lem : (p : Option Bool × Session R) → p.0 ≡ some true → p ≡ (some true, p.1)
  decision_lem p h = ground arith

  remove_lazy_verified-SeenRemoved :
      (item : LazyCandidate) (stats : GcStats) (s : Session R)
      → (remove_lazy_verified item stats s).0 ≡ true
      → SeenRemoved item s (remove_lazy_verified item stats s).2
  unfolding remove_lazy_verified
  remove_lazy_verified-SeenRemoved item stats s h =
      let s1 = removal_sent item s in
      elim (Option-cases (lazy_id_exists s1 item.comment item.id).0) [
        | inl e ↦ cc (rw (e, remove_lazy_verified) at h)
        | inr (true, e) ↦ cc (rw (e, remove_lazy_verified) at h)
        | inr (false, e) ↦
            let (answer, absent) = lazy_id_exists-Answer s1 item.comment item.id e in
            rw (e, remove_lazy_verified) (record { answer = answer; absent = absent; after = refl })
      ]

  module _ (item : LazyCandidate) (items : List LazyCandidate) (budget : ℕ) (stats : GcStats)
      (s : Session R) where
    pass_alone :
        item.shape_unverifiable ≡ true
        → process_lazy_kind (item ∷ items) (suc budget) stats s
          ≡ process_lazy_kind items (suc budget) stats s
    unfolding process_lazy_kind decide_lazy remove_lazy_verified
    pass_alone u = rw (u, process_lazy_kind) refl

    pass_failed :
        item.shape_unverifiable ≡ false
        → (decide_lazy item s).0 ≡ none
        → (process_lazy_kind (item ∷ items) (suc budget) stats s).0 ≡ false
    unfolding process_lazy_kind decide_lazy remove_lazy_verified
    pass_failed u e = rw (u, process_lazy_kind) (rw e refl)

    pass_kept :
        item.shape_unverifiable ≡ false
        → (decide_lazy item s).0 ≡ some false
        → process_lazy_kind (item ∷ items) (suc budget) stats s
          ≡ process_lazy_kind items (suc budget) stats (decide_lazy item s).1
    unfolding process_lazy_kind decide_lazy remove_lazy_verified
    pass_kept u e = rw (u, process_lazy_kind) (rw e refl)

    pass_unverified :
        item.shape_unverifiable ≡ false
        → (decide_lazy item s).0 ≡ some true
        → (remove_lazy_verified item stats (decide_lazy item s).1).0 ≡ false
        → (process_lazy_kind (item ∷ items) (suc budget) stats s).0 ≡ false
    unfolding process_lazy_kind decide_lazy remove_lazy_verified
    pass_unverified u e f = rw (u, process_lazy_kind) (rw e (rw f refl))

    pass_removed :
        item.shape_unverifiable ≡ false
        → (decide_lazy item s).0 ≡ some true
        → (remove_lazy_verified item stats (decide_lazy item s).1).0 ≡ true
        → process_lazy_kind (item ∷ items) (suc budget) stats s
          ≡ process_lazy_kind items budget
              (remove_lazy_verified item stats (decide_lazy item s).1).1
              (remove_lazy_verified item stats (decide_lazy item s).1).2
    unfolding process_lazy_kind decide_lazy remove_lazy_verified
    pass_removed u e f = rw (u, process_lazy_kind) (rw e (rw f refl))

  -- A pass over the candidates of one kind that does not fail has dealt with them in turn, and removes a
  -- rule only within the budget, when it is not the rule that its comment names or its list was counted
  -- empty by two complete answers, and when a complete answer right behind the removal no longer
  -- shows the rule's id.
  pub process_lazy_kind-Processed :
      (items : List LazyCandidate) (budget : ℕ) (stats : GcStats) (s : Session R)
      → (process_lazy_kind items budget stats s).0 ≡ true
      → Processed items budget s (process_lazy_kind items budget stats s).2
  unfolding process_lazy_kind
  process_lazy_kind-Processed [] budget stats s h = no_candidates
  process_lazy_kind-Processed (item ∷ items) zero stats s h = no_budget
  process_lazy_kind-Processed (item ∷ items) (suc budget) stats s h =
      let decided = decide_lazy item s in
      let one = remove_lazy_verified item stats decided.1 in
      let goal : Bool × GcStats × Session R → Type 0 =
        λ r. r.0 ≡ true → Processed (item ∷ items) (suc budget) s r.2 in
      elim (Bool-cases item.shape_unverifiable) [
        | inl u ↦
            subst goal (sym (pass_alone item items budget stats s u))
              (λ k. left_alone u (process_lazy_kind-Processed items (suc budget) stats s k)) h
        | inr u ↦ elim (Option-cases decided.0) [
          | inl e ↦ cc (sym h ∙ pass_failed item items budget stats s u e)
          | inr (false, e) ↦
              subst goal (sym (pass_kept item items budget stats s u e))
                (λ k. kept e (process_lazy_kind-Processed items (suc budget) stats decided.1 k)) h
          | inr (true, e) ↦ elim (Bool-cases one.0) [
            | inr f ↦ cc (sym h ∙ pass_unverified item items budget stats s u e f)
            | inl f ↦
                let why = decide_lazy-empty item s decided.1 (decision_lem decided e) in
                let seen = remove_lazy_verified-SeenRemoved item stats decided.1 f in
                subst goal (sym (pass_removed item items budget stats s u e f))
                  (λ k.
                    removed u why refl seen
                      (process_lazy_kind-Processed items budget one.1 one.2 k))
                  h
          ]
        ]
      ]
