-- ===== src/Ros/Command/Success.antt =====
-- About the replies of a `ros_command`, src/routeros_api.c, that returns no error.
use susanin.Prelude.{◌≡◌, ap, true, false, List, [], ◌∷◌, ◌++◌, some, All, arith, Bool-cases}
use susanin.Prelude.{inl, inr}
use susanin.Prelude.Int.{ℤ, pos, minus_one, is_zero, is_neg}
use susanin.Ros.Sentence.{Sentence}
use susanin.Ros.Command.{Callback, finished, is_done, is_trap, is_fatal, take_reply, drain}
use susanin.Ros.Command.Drain.{GoesOn, take_reply_failed, take_reply_good}

module _ {C : Type 0} (cb : Callback C) where
  -- The context behind a run of sentences.
  abbrev pub feed : List Sentence → C → C
  feed [] ctx = ctx
  feed (s ∷ ss) ctx = feed ss (cb s ctx).1

  -- The replies up to `!done` held no trap, and the callback saw each of them once, in order.
  pub record Complete (ss : List Sentence) (ctx ctx' : C) (left : List Sentence) : Type 0 where
    pub before : List Sentence
    pub last : Sentence
    pub splits : ss ≡ before ++ (last ∷ left)
    pub quiet : All (λ s. is_trap s ≡ false) before
    pub ongoing : All GoesOn before
    pub ends : is_done last ≡ true
    pub shown : ctx' ≡ feed (before ++ (last ∷ [])) ctx

  drain_failed_rc :
      (ss : List Sentence) (rc rc' : ℤ) (ctx ctx' : C) (left : List Sentence)
      → is_zero rc ≡ false
      → drain (some cb) rc ctx ss ≡ finished rc' ctx' left
      → rc' ≡ rc
  unfolding drain
  drain_failed_rc [] rc rc' ctx ctx' left z h = cc
  drain_failed_rc (s ∷ ss) rc rc' ctx ctx' left z h =
      ground (arith, take_reply_failed cb s rc ctx z, drain_failed_rc ss rc rc' ctx ctx' left z)

  module _ (calm : (s : Sentence) (c : C) → is_done s ≡ false → (cb s c).0 ≡ pos 0) where
    take_reply_calm :
        (s : Sentence) (ctx : C)
        → is_done s ≡ false
        → is_trap s ≡ false
        → take_reply (some cb) s (pos 0) ctx ≡ (pos 0, (cb s ctx).1)
    take_reply_calm s ctx d t = ground (arith, take_reply_good cb s ctx, calm s ctx d)

    take_reply_trap :
        (s : Sentence) (ctx : C)
        → is_done s ≡ false
        → is_trap s ≡ true
        → take_reply (some cb) s (pos 0) ctx ≡ (minus_one, (cb s ctx).1)
    take_reply_trap s ctx d t = ground (arith, take_reply_good cb s ctx, calm s ctx d)

    take_reply_last :
        (s : Sentence) (ctx : C) → (take_reply (some cb) s (pos 0) ctx).1 ≡ (cb s ctx).1
    take_reply_last s ctx = ground (arith, take_reply_good cb s ctx)

    Complete-cons :
        (s : Sentence) (ss : List Sentence) {ctx ctx' : C} {left : List Sentence}
        → is_trap s ≡ false
        → GoesOn s
        → Complete ss (cb s ctx).1 ctx' left
        → Complete (s ∷ ss) ctx ctx' left
    Complete-cons s ss t g c = record {
      before = s ∷ c.before;
      last = c.last;
      splits = ap (◌∷◌ s) c.splits;
      quiet = (t, c.quiet);
      ongoing = (g, c.ongoing);
      ends = c.ends;
      shown = c.shown;
    }

    pub drain-Complete :
        (ss : List Sentence) (ctx : C) (rc : ℤ) (ctx' : C) (left : List Sentence)
        → drain (some cb) (pos 0) ctx ss ≡ finished rc ctx' left
        → is_neg rc ≡ false
        → Complete ss ctx ctx' left
    unfolding drain
    drain-Complete [] ctx rc ctx' left h n = cc
    drain-Complete (s ∷ ss) ctx rc ctx' left h n = elim (Bool-cases (is_fatal s)) [
      | inl f ↦ cc (rw f at h)
      | inr f ↦ elim (Bool-cases (is_done s)) [
        | inl d ↦ record {
          before = [];
          last = s;
          splits = ground (arith, rw d at (rw f at h));
          quiet = tt;
          ongoing = tt;
          ends = d;
          shown = ground (arith, take_reply_last s ctx);
        }
        | inr d ↦ elim (Bool-cases (is_trap s)) [
          | inl t ↦ ground (
            arith,
            take_reply_trap s ctx d t,
            drain_failed_rc ss minus_one rc (cb s ctx).1 ctx' left,
          )
          | inr t ↦
              Complete-cons s ss t (d, f)
                (drain-Complete ss (cb s ctx).1 rc ctx' left
                  (ground (arith, take_reply_calm s ctx d t)) n)
        ]
      ]
    ]
