-- ===== src/Gc/Marks/Verified.antt =====
-- About `process_mark_kind` of src/gc.c: what a removal of marks has seen.
use susanin.Prelude.{
  ℕ, zero, suc, ◌≡◌, refl, sym, ◌∙◌, Bool, true, false, List, [], ◌∷◌, ◌++◌, Option, none, some,
  some-injective, ◌+◌, ◌⊎◌, inl, inr, arith, Bool-cases, Option-cases,
}
use mathlib.Core.Path.{subst}
use susanin.Prelude.Text.{Text, codes, copy_to}
use susanin.Ros.Session.{Router, Session}
use susanin.Gc.Names.{Kind, mark_verify_retries, state_name, make_state_list}
use susanin.Gc.Queries.{remove_id}
use susanin.Gc.Lazy.{GcStats}
use susanin.Gc.Marks.{
  MarkCandidate, verify_mark_ids_absent, decide_mark, attempt_marks, settle_marks,
  process_mark_kind,
}
use susanin.Gc.Marks.Decide.{SeenAbsent, decide_mark-absent}
use susanin.Gc.Marks.Cleared.{SeenCleared, verify_mark_loop-SeenCleared}

-- The candidates in turn, with a budget of removals: from `s`, with the ids that were attempted before, to
-- `s'`, with those that have been attempted then.
pub data Attempted {R : Router}
    : List MarkCandidate → ℕ → List Text → List Text → Session R → Session R → Type 0 where
  no_candidates : {budget : ℕ} {ids : List Text} {s : Session R} → Attempted [] budget ids ids s s
  no_budget :
      {item : MarkCandidate} {items : List MarkCandidate} {ids : List Text} {s : Session R}
      → Attempted (item ∷ items) zero ids ids s s
  left_alone :
      {item : MarkCandidate} {items : List MarkCandidate} {budget : ℕ} {ids ids' : List Text}
      {s s' : Session R}
      → item.valid ≡ false
      → Attempted items (suc budget) ids ids' s s'
      → Attempted (item ∷ items) (suc budget) ids ids' s s'
  kept :
      {item : MarkCandidate} {items : List MarkCandidate} {budget : ℕ} {ids ids' : List Text}
      {s s' : Session R}
      → (decide_mark item s).0 ≡ some false
      → Attempted items (suc budget) ids ids' (decide_mark item s).1 s'
      → Attempted (item ∷ items) (suc budget) ids ids' s s'
  attempted :
      {item : MarkCandidate} {items : List MarkCandidate} {budget : ℕ} {ids ids' : List Text}
      {s s1 s' : Session R}
      → item.valid ≡ true
      → SeenAbsent (make_state_list (state_name item.kind) item.protocol item.port) item.dst s s1
      → Attempted items budget
          (ids ++ (copy_to 64 item.id ∷ []))
          ids'
          (remove_id s1 (codes "/ip/firewall/connection/remove") item.id)
          s'
      → Attempted (item ∷ items) (suc budget) ids ids' s s'

-- A pass over the candidates of one kind: nothing was attempted, or a look behind the attempts no longer
-- shows any of the ids.
pub record MarksDone {R : Router} (kind : Kind) (items : List MarkCandidate) (budget : ℕ)
    (s s' : Session R) : Type 1 where
  pub ids : List Text
  pub behind : Session R
  pub attempts : Attempted items budget [] ids s behind
  pub cleared : (ids ≡ []) × (behind ≡ s') ⊎ SeenCleared kind ids behind s'

module _ {R : Router} where
  mark_decision_lem : (p : Option Bool × Session R) → p.0 ≡ some true → p ≡ (some true, p.1)
  mark_decision_lem p h = ground arith

  module _ (item : MarkCandidate) (items : List MarkCandidate) (budget : ℕ) (ids : List Text)
      (stats : GcStats) (s : Session R) where
    pass_alone :
        item.valid ≡ false
        → attempt_marks (item ∷ items) (suc budget) ids stats s
          ≡ attempt_marks items (suc budget) ids stats s
    unfolding attempt_marks decide_mark
    pass_alone v = rw (v, attempt_marks) refl

    pass_failed :
        item.valid ≡ true
        → (decide_mark item s).0 ≡ none
        → (attempt_marks (item ∷ items) (suc budget) ids stats s).0 ≡ none
    unfolding attempt_marks decide_mark
    pass_failed v e = rw (v, attempt_marks) (rw e refl)

    pass_kept :
        item.valid ≡ true
        → (decide_mark item s).0 ≡ some false
        → attempt_marks (item ∷ items) (suc budget) ids stats s
          ≡ attempt_marks items (suc budget) ids stats (decide_mark item s).1
    unfolding attempt_marks decide_mark
    pass_kept v e = rw (v, attempt_marks) (rw e refl)

    pass_attempted :
        item.valid ≡ true
        → (decide_mark item s).0 ≡ some true
        → attempt_marks (item ∷ items) (suc budget) ids stats s
          ≡ attempt_marks items budget
              (ids ++ (copy_to 64 item.id ∷ []))
              (record stats { actions = stats.actions + 1 })
              (remove_id (decide_mark item s).1 (codes "/ip/firewall/connection/remove") item.id)
    unfolding attempt_marks decide_mark
    pass_attempted v e = rw (v, attempt_marks) (rw e refl)

  attempt_marks-Attempted :
      (items : List MarkCandidate) (budget : ℕ) (ids ids' : List Text) (stats : GcStats)
      (s : Session R)
      → (attempt_marks items budget ids stats s).0 ≡ some ids'
      → Attempted items budget ids ids' s (attempt_marks items budget ids stats s).2
  unfolding attempt_marks
  attempt_marks-Attempted [] budget ids ids' stats s h =
      subst (λ x. Attempted [] budget ids x s s) (some-injective h) no_candidates
  attempt_marks-Attempted (item ∷ items) zero ids ids' stats s h =
      subst (λ x. Attempted (item ∷ items) zero ids x s s) (some-injective h) no_budget
  attempt_marks-Attempted (item ∷ items) (suc budget) ids ids' stats s h =
      let decided = decide_mark item s in
      let goal : Option (List Text) × GcStats × Session R → Type 0 =
        λ r. r.0 ≡ some ids' → Attempted (item ∷ items) (suc budget) ids ids' s r.2 in
      elim (Bool-cases item.valid) [
        | inr v ↦
            subst goal (sym (pass_alone item items budget ids stats s v))
              (λ k. left_alone v (attempt_marks-Attempted items (suc budget) ids ids' stats s k)) h
        | inl v ↦ elim (Option-cases decided.0) [
          | inl e ↦ cc (sym h ∙ pass_failed item items budget ids stats s v e)
          | inr (false, e) ↦
              subst goal (sym (pass_kept item items budget ids stats s v e))
                (λ k.
                  kept e (attempt_marks-Attempted items (suc budget) ids ids' stats decided.1 k))
                h
          | inr (true, e) ↦
              let stale = decide_mark-absent item s decided.1 (mark_decision_lem decided e) in
              subst goal (sym (pass_attempted item items budget ids stats s v e))
                (λ k. attempted v stale (attempt_marks-Attempted items budget _ ids' _ _ k)) h
        ]
      ]

  settle_marks-cleared :
      (kind : Kind) (ids : List Text) (stats : GcStats) (s : Session R)
      → (settle_marks kind (some ids) stats s).0 ≡ true
      → (ids ≡ []) × (s ≡ (settle_marks kind (some ids) stats s).2)
        ⊎ SeenCleared kind ids s (settle_marks kind (some ids) stats s).2
  unfolding settle_marks verify_mark_ids_absent
  settle_marks-cleared kind [] stats s h = inl (refl, refl)
  settle_marks-cleared kind (id ∷ ids) stats s h =
      elim (Bool-cases (verify_mark_ids_absent kind (id ∷ ids) s).0) [
        | inr e ↦ cc (rw (e, settle_marks) at h)
        | inl e ↦
            rw (e, settle_marks)
              (inr (verify_mark_loop-SeenCleared kind (id ∷ ids) mark_verify_retries s e))
      ]

  -- A pass over the connections of one kind that does not fail has dealt with them in turn, removes a mark
  -- only within the budget and when two complete answers counted its address 0 times in its list, and has
  -- seen behind the removals a complete answer that shows none of the ids.
  pub process_mark_kind-MarksDone :
      (kind : Kind) (items : List MarkCandidate) (budget : ℕ) (stats : GcStats) (s : Session R)
      → (process_mark_kind kind items budget stats s).0 ≡ true
      → MarksDone kind items budget s (process_mark_kind kind items budget stats s).2
  unfolding process_mark_kind
  process_mark_kind-MarksDone kind items budget stats s h =
      let pass = attempt_marks items budget [] stats s in
      elim (Option-cases pass.0) [
        | inl e ↦ cc (rw (e, process_mark_kind) at h)
        | inr (ids, e) ↦
            let settled = rw (e, process_mark_kind) at h in
            rw (e, process_mark_kind)
              (record {
                ids = ids;
                behind = pass.2;
                attempts = attempt_marks-Attempted items budget [] ids stats s e;
                cleared = settle_marks-cleared kind ids pass.1 pass.2 settled;
              })
      ]
