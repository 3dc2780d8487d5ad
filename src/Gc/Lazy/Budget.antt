-- ===== src/Gc/Lazy/Budget.antt =====
-- About `process_lazy_kind` of src/gc.c: what it has used of its budget.
use susanin.Prelude.{ℕ, zero, suc, refl, true, false, List, [], ◌∷◌, ◌==◌, arith}
use susanin.Prelude.{Bool-cases, Option-cases, inl, inr}
use susanin.Prelude.Text.{codes}
use susanin.Ros.Session.{Router, Session}
use susanin.Ros.Session.Log.{Issued, Issued-refl, Issued-trans}
use susanin.Gc.Names.{state_name, make_state_list}
use susanin.Gc.Commands.{IsGcCommand, rule}
use susanin.Gc.Spent.{Spent, Spent-idle, Spent-after, Spent-trans, Spent-weaken}
use susanin.Gc.Queries.{address_list_count, lazy_id_exists, remove_id}
use susanin.Gc.Queries.Prints.{Issued-address_list_count, Issued-lazy_id_exists, Issued-remove_id}
use susanin.Gc.Lazy.{LazyCandidate, GcStats, remove_lazy_verified, decide_lazy, process_lazy_kind}

module _ {R : Router} where
  Issued-decide_lazy :
      (item : LazyCandidate) (s : Session R) → Issued IsGcCommand 0 s (decide_lazy item s).1
  unfolding decide_lazy
  Issued-decide_lazy item s =
      let list = make_state_list (state_name item.parsed_kind) item.parsed_proto item.parsed_port in
      let s1 = (address_list_count s list).1 in
      let first = Issued-address_list_count s list in
      let second =
        Issued-trans IsGcCommand 0 0 0 (omega arith) first (Issued-address_list_count s1 list) in
      elim (Bool-cases item.shape_valid) [
        | inr e ↦ rw (e, decide_lazy) (Issued-refl IsGcCommand 0 s)
        | inl e ↦ elim (Option-cases (address_list_count s list).0) [
          | inl n ↦ rw (e, decide_lazy) (rw n first)
          | inr (k, n) ↦ elim (Bool-cases (k == 0)) [
            | inl z ↦ rw (e, decide_lazy) (rw n (rw z second))
            | inr z ↦ rw (e, decide_lazy) (rw n (rw z first))
          ]
        ]
      ]

  Spent-remove_lazy_verified :
      (item : LazyCandidate) (stats : GcStats) (s : Session R)
      → Spent 1 stats s (remove_lazy_verified item stats s)
  unfolding remove_lazy_verified
  Spent-remove_lazy_verified item stats s =
      let s1 = remove_id s (codes "/ip/firewall/mangle/remove") item.id in
      let sent =
        Issued-trans IsGcCommand 1 0 1 (omega arith)
          (Issued-remove_id s (codes "/ip/firewall/mangle/remove") item.id (rule item.id))
          (Issued-lazy_id_exists s1 item.comment item.id) in
      elim (Option-cases (lazy_id_exists s1 item.comment item.id).0) [
        | inl e ↦
            rw (e, remove_lazy_verified)
              (record {
                spent = 1;
                bounded = omega arith;
                counted = refl;
                skip_kept = refl;
                verified = λ t. cc;
                issued = sent;
              })
        | inr (there, e) ↦ elim (Bool-cases there) [
          | inl t ↦
              rw (e, remove_lazy_verified)
                (rw t (record {
                  spent = 1;
                  bounded = omega arith;
                  counted = refl;
                  skip_kept = refl;
                  verified = λ t. cc;
                  issued = sent;
                }))
          | inr t ↦
              rw (e, remove_lazy_verified)
                (rw t (record {
                  spent = 1;
                  bounded = omega arith;
                  counted = refl;
                  skip_kept = refl;
                  verified = λ t. omega arith;
                  issued = sent;
                }))
        ]
      ]

  -- At most `budget` commands change the router, all of them allowed, each is counted as an action, and
  -- when the loop succeeds, each is counted as removed or cleared.
  pub Spent-process_lazy_kind :
      (items : List LazyCandidate) (budget : ℕ) (stats : GcStats) (s : Session R)
      → Spent budget stats s (process_lazy_kind items budget stats s)
  unfolding process_lazy_kind
  Spent-process_lazy_kind [] budget stats s =
      Spent-idle budget stats s s true (Issued-refl IsGcCommand 0 s)
  Spent-process_lazy_kind (item ∷ items) zero stats s =
      Spent-idle 0 stats s s true (Issued-refl IsGcCommand 0 s)
  Spent-process_lazy_kind (item ∷ items) (suc budget) stats s =
      let s1 = (decide_lazy item s).1 in
      let asked = Issued-decide_lazy item s in
      let out = remove_lazy_verified item stats s1 in
      let spent = Spent-remove_lazy_verified item stats s1 in
      elim (Bool-cases item.shape_unverifiable) [
        | inl u ↦ rw (u, process_lazy_kind) (Spent-process_lazy_kind items (suc budget) stats s)
        | inr u ↦ elim (Option-cases (decide_lazy item s).0) [
          | inl e ↦
              rw (u, process_lazy_kind) (rw e (Spent-idle (suc budget) stats s s1 false asked))
          | inr (goes, e) ↦ elim (Bool-cases goes) [
            | inr g ↦
                rw (u, process_lazy_kind)
                  (rw e (
                    rw g
                      (Spent-after _ asked (Spent-process_lazy_kind items (suc budget) stats s1))))
            | inl g ↦ elim (Bool-cases out.0) [
              | inr r ↦
                  rw (u, process_lazy_kind)
                    (rw e (
                      rw g (
                        rw r (
                          Spent-after (false, out.1, out.2) asked
                            (Spent-weaken (false, out.1, out.2) (omega arith) (rw r at spent))))))
              | inl r ↦
                  rw (u, process_lazy_kind)
                    (rw e (
                      rw g (
                        rw r (
                          Spent-after _ asked (
                            Spent-weaken _ (omega arith) (
                              Spent-trans out.1 out.2 _ (rw r at spent)
                                (Spent-process_lazy_kind items budget out.1 out.2)))))))
            ]
          ]
        ]
      ]
