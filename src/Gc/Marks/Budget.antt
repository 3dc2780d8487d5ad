-- ===== src/Gc/Marks/Budget.antt =====
-- About `process_mark_kind` of src/gc.c: what it has used of its budget.
use susanin.Prelude.{
  ℕ, zero, suc, ◌+◌, ◌≤◌, ◌≡◌, refl, List, [], ◌∷◌, ◌++◌, Option, none, some, ◌==◌, arith,
}
use susanin.Prelude.{Bool-cases, Option-cases, inl, inr, length, length-append}
use susanin.Prelude.Text.{Text, codes, copy_to, str_eq}
use susanin.Ros.Session.{Router, Session, sleep}
use susanin.Ros.Session.Log.{Issued, Issued-refl, Issued-trans, Issued-sleep, is_change, ends_with}
use susanin.Gc.Names.{Kind, state_name, make_state_list, mark_verify_retries}
use susanin.Gc.Commands.{IsGcCommand, mark}
use susanin.Gc.Spent.{Spent}
use susanin.Gc.Queries.{state_contains_address, remove_id}
use susanin.Gc.Queries.Prints.{Issued-ask, Issued-state_contains_address, Issued-remove_id}
use susanin.Gc.Lazy.{GcStats}
use susanin.Gc.Marks.{
  MarkCandidate, verify_mark_ids_absent_once, verify_mark_loop, verify_mark_ids_absent, decide_mark,
  attempt_marks, settle_marks, process_mark_kind,
}

-- What the loop over the candidates has done: each attempt is one action and one removal.
record Attempts {R : Router} (k held : ℕ) (stats : GcStats) (s : Session R)
    (out : Option (List Text) × GcStats × Session R) : Type 0 where
  spent : ℕ
  bounded : spent ≤ k
  counted : out.1.actions ≡ stats.actions + spent
  lazy_kept : out.1.lazy_removed ≡ stats.lazy_removed
  marks_kept : out.1.marked_cleared ≡ stats.marked_cleared
  skipped_kept : out.1.skipped ≡ stats.skipped
  attempted : (ids : List Text) → out.0 ≡ some ids → length ids ≡ held + spent
  issued : Issued IsGcCommand spent s out.2

one_more : (held : List Text) (id : Text) → length (held ++ (id ∷ [])) ≡ length held + 1
one_more held id = omega (arith, length-append held (id ∷ []))

module _ {R : Router} where
  Issued-decide_mark :
      (item : MarkCandidate) (s : Session R) → Issued IsGcCommand 0 s (decide_mark item s).1
  unfolding decide_mark
  Issued-decide_mark item s =
      let list = make_state_list (state_name item.kind) item.protocol item.port in
      let s1 = (state_contains_address s list item.dst).1 in
      let first = Issued-state_contains_address s list item.dst in
      let second =
        Issued-trans IsGcCommand 0 0 0 (omega arith) first
          (Issued-state_contains_address s1 list item.dst) in
      elim (Option-cases (state_contains_address s list item.dst).0) [
        | inl e ↦ rw (e, decide_mark) first
        | inr (there, e) ↦ elim (Bool-cases there) [
          | inl t ↦ rw (e, decide_mark) (rw t first)
          | inr t ↦ rw (e, decide_mark) (rw t second)
        ]
      ]

  Attempts-idle :
      (k : ℕ) (held : List Text) (stats : GcStats) (s : Session R)
      → Attempts k (length held) stats s (some held, stats, s)
  Attempts-idle k held stats s = record {
    spent = 0;
    bounded = omega arith;
    counted = omega arith;
    lazy_kept = refl;
    marks_kept = refl;
    skipped_kept = refl;
    attempted = λ ids e. ground arith;
    issued = Issued-refl IsGcCommand 0 s;
  }

  Attempts-after :
      {k held : ℕ} {stats : GcStats} {s s1 : Session R}
      (out : Option (List Text) × GcStats × Session R)
      → Issued IsGcCommand 0 s s1
      → Attempts k held stats s1 out
      → Attempts k held stats s out
  Attempts-after out i p = record {
    spent = p.spent;
    bounded = p.bounded;
    counted = p.counted;
    lazy_kept = p.lazy_kept;
    marks_kept = p.marks_kept;
    skipped_kept = p.skipped_kept;
    attempted = p.attempted;
    issued = Issued-trans IsGcCommand 0 p.spent p.spent (omega arith) i p.issued;
  }

  Attempts-one :
      {k held : ℕ} {stats : GcStats} {s s1 : Session R}
      (out : Option (List Text) × GcStats × Session R)
      → Issued IsGcCommand 1 s s1
      → Attempts k (held + 1) (record stats { actions = stats.actions + 1 }) s1 out
      → Attempts (suc k) held stats s out
  Attempts-one out i p = record {
    spent = suc p.spent;
    bounded = omega (arith, p.bounded);
    counted = omega (arith, p.counted);
    lazy_kept = p.lazy_kept;
    marks_kept = p.marks_kept;
    skipped_kept = p.skipped_kept;
    attempted = λ ids e. omega (arith, p.attempted ids e);
    issued = Issued-trans IsGcCommand 1 p.spent (suc p.spent) (omega arith) i p.issued;
  }

  Attempts-failed :
      (k held : ℕ) (stats : GcStats) (s s1 : Session R)
      → Issued IsGcCommand 0 s s1
      → Attempts k held stats s (none, stats, s1)
  Attempts-failed k held stats s s1 i = record {
    spent = 0;
    bounded = omega arith;
    counted = omega arith;
    lazy_kept = refl;
    marks_kept = refl;
    skipped_kept = refl;
    attempted = λ ids e. cc;
    issued = i;
  }

  attempt_marks-Attempts :
      (items : List MarkCandidate) (budget : ℕ) (held : List Text) (stats : GcStats) (s : Session R)
      → Attempts budget (length held) stats s (attempt_marks items budget held stats s)
  unfolding attempt_marks
  attempt_marks-Attempts [] budget held stats s = Attempts-idle budget held stats s
  attempt_marks-Attempts (item ∷ items) zero held stats s = Attempts-idle zero held stats s
  attempt_marks-Attempts (item ∷ items) (suc budget) held stats s =
      let s1 = (decide_mark item s).1 in
      let asked = Issued-decide_mark item s in
      let cmd = codes "/ip/firewall/connection/remove" in
      let held1 = held ++ (copy_to 64 item.id ∷ []) in
      let stats1 : GcStats = record stats { actions = stats.actions + 1 } in
      elim (Bool-cases item.valid) [
        | inr v ↦ rw (v, attempt_marks) (attempt_marks-Attempts items (suc budget) held stats s)
        | inl v ↦ elim (Option-cases (decide_mark item s).0) [
          | inl e ↦
              rw (v, attempt_marks)
                (rw e (Attempts-failed (suc budget) (length held) stats s s1 asked))
          | inr (goes, e) ↦ elim (Bool-cases goes) [
            | inr g ↦
                rw (v, attempt_marks)
                  (rw e (
                    rw g (
                      Attempts-after _ asked
                        (attempt_marks-Attempts items (suc budget) held stats s1))))
            | inl g ↦
                rw (v, attempt_marks)
                  (rw e (
                    rw g (
                      Attempts-one _
                        (Issued-trans IsGcCommand 0 1 1 (omega arith) asked
                          (Issued-remove_id s1 cmd item.id (mark item.id)))
                        (rw (one_more held (copy_to 64 item.id)) at (
                          attempt_marks-Attempts items budget held1 stats1
                            (remove_id s1 cmd item.id))))))
          ]
        ]
      ]

  Issued-verify_once :
      (kind : Kind) (ids : List Text) (s : Session R)
      → Issued IsGcCommand 0 s (verify_mark_ids_absent_once kind ids s).1
  unfolding verify_mark_ids_absent_once is_change ends_with codes str_eq
  Issued-verify_once kind ids s = Issued-ask s _ _ _ refl

  Issued-verify_mark_loop :
      (left : ℕ) (kind : Kind) (ids : List Text) (s : Session R)
      → Issued IsGcCommand 0 s (verify_mark_loop left kind ids s).1
  unfolding verify_mark_loop
  Issued-verify_mark_loop zero kind ids s = Issued-refl IsGcCommand 0 s
  Issued-verify_mark_loop (suc left) kind ids s =
      let s1 = (verify_mark_ids_absent_once kind ids s).1 in
      let once = Issued-verify_once kind ids s in
      let again = Issued-trans IsGcCommand 0 0 0 (omega arith) once (
        Issued-trans IsGcCommand 0 0 0 (omega arith) (Issued-sleep IsGcCommand 0 s1)
          (Issued-verify_mark_loop left kind ids (sleep s1))) in
      elim (Option-cases (verify_mark_ids_absent_once kind ids s).0) [
        | inl e ↦ elim (Bool-cases (left == 0)) [
          | inl z ↦ rw (e, verify_mark_loop) (rw z once)
          | inr z ↦ rw (e, verify_mark_loop) (rw z again)
        ]
        | inr (found, e) ↦ elim (Bool-cases found) [
          | inr f ↦ rw (e, verify_mark_loop) (rw f once)
          | inl f ↦ elim (Bool-cases (left == 0)) [
            | inl z ↦ rw (e, verify_mark_loop) (rw f (rw z once))
            | inr z ↦ rw (e, verify_mark_loop) (rw f (rw z again))
          ]
        ]
      ]

  Issued-verify :
      (kind : Kind) (ids : List Text) (s : Session R)
      → Issued IsGcCommand 0 s (verify_mark_ids_absent kind ids s).1
  unfolding verify_mark_ids_absent
  Issued-verify kind ids s = Issued-verify_mark_loop mark_verify_retries kind ids s

  Spent-settle_marks :
      (budget : ℕ) (kind : Kind) (stats : GcStats) (s : Session R) (ids : Option (List Text))
      (stats1 : GcStats) (s1 : Session R)
      → Attempts budget 0 stats s (ids, stats1, s1)
      → Spent budget stats s (settle_marks kind ids stats1 s1)
  unfolding settle_marks
  Spent-settle_marks budget kind stats s none stats1 s1 a = record {
    spent = a.spent;
    bounded = a.bounded;
    counted = a.counted;
    skip_kept = a.skipped_kept;
    verified = λ e. cc;
    issued = a.issued;
  }
  Spent-settle_marks budget kind stats s (some []) stats1 s1 a = record {
    spent = a.spent;
    bounded = a.bounded;
    counted = a.counted;
    skip_kept = a.skipped_kept;
    verified = λ e. omega (arith, a.attempted [] refl, a.lazy_kept, a.marks_kept);
    issued = a.issued;
  }
  Spent-settle_marks budget kind stats s (some (id ∷ ids)) stats1 s1 a =
      let check = verify_mark_ids_absent kind (id ∷ ids) s1 in
      let sent =
        Issued-trans IsGcCommand a.spent 0 a.spent (omega arith) a.issued
          (Issued-verify kind (id ∷ ids) s1) in
      elim (Bool-cases check.0) [
        | inl g ↦
            rw (g, settle_marks)
              (record {
                spent = a.spent;
                bounded = a.bounded;
                counted = a.counted;
                skip_kept = a.skipped_kept;
                verified =
                    λ e. omega (arith, a.attempted (id ∷ ids) refl, a.lazy_kept, a.marks_kept);
                issued = sent;
              })
        | inr g ↦
            rw (g, settle_marks)
              (record {
                spent = a.spent;
                bounded = a.bounded;
                counted = a.counted;
                skip_kept = a.skipped_kept;
                verified = λ e. cc;
                issued = sent;
              })
      ]

  -- At most `budget` commands change the router, all of them allowed, each is counted as an action, and
  -- when the loop succeeds, each is counted as removed or cleared.
  pub Spent-process_mark_kind :
      (kind : Kind) (items : List MarkCandidate) (budget : ℕ) (stats : GcStats) (s : Session R)
      → Spent budget stats s (process_mark_kind kind items budget stats s)
  unfolding process_mark_kind
  Spent-process_mark_kind kind items budget stats s =
      let out = attempt_marks items budget [] stats s in
      Spent-settle_marks budget kind stats s out.0 out.1 out.2
        (attempt_marks-Attempts items budget [] stats s)
