-- ===== src/Ros/Session/Calls.antt =====
-- About a `ros_command` of src/routeros_api.c that did not fail.
use susanin.Prelude.{◌≡◌, false, not, ◌||◌, List, ◌++◌, Option, some, arith, Bool-cases, inl, inr}
use susanin.Prelude.Int.{ℤ, pos, is_neg}
use susanin.Prelude.Text.{Text}
use susanin.Ros.Sentence.{Sentence}
use susanin.Ros.Command.{Callback, Ending, finished, fatal, broken, stuck, is_done, drain}
use susanin.Ros.Command.Success.{Complete, drain-Complete}
use susanin.Ros.Session.{Router, Session, settle, issue, has_no_words, ros_command}

module _ {R : Router} where
  -- The sentences that the reply loop of a command can read.
  abbrev pub received : Session R → List Text → List Sentence
  received s words = s.pending ++ (R.exchange s.world words).1

  settle_good :
      {C : Type 0} (s : Session R) (e : Ending (List Sentence) C) (old : C) (rc : ℤ) (ctx : C)
      (s' : Session R)
      → settle s e old ≡ (rc, ctx, s')
      → is_neg rc ≡ false
      → (left : List Sentence) × (e ≡ finished rc ctx left)
  unfolding settle
  settle_good s (finished rc ctx left) old rc' ctx' s' h n = (left, ground arith)
  settle_good s (fatal ctx) old rc' ctx' s' h n = ground arith
  settle_good s (broken ctx) old rc' ctx' s' h n = ground arith
  settle_good s stuck old rc' ctx' s' h n = ground arith

  pub ros_command_good :
      {C : Type 0} (s : Session R) (words : List Text) (cb : Option (Callback C)) (old : C) (rc : ℤ)
      (ctx : C) (s' : Session R)
      → ros_command s words cb old ≡ (rc, ctx, s')
      → is_neg rc ≡ false
      → (left : List Sentence) × (drain cb (pos 0) old (received s words) ≡ finished rc ctx left)
  unfolding ros_command
  ros_command_good s words cb old rc ctx s' h n =
      elim (Bool-cases (not s.is_open || has_no_words words)) [
        | inl e ↦ ground arith
        | inr e ↦ settle_good (issue s words) _ old rc ctx s' (rw e at h) n
      ]

  -- With a callback that never fails itself, the replies were complete and held no trap.
  pub ros_command-Complete :
      {C : Type 0} (s : Session R) (words : List Text) (cb : Callback C) (old : C) (rc : ℤ)
      (ctx : C) (s' : Session R)
      → ((st : Sentence) (c : C) → (cb st c).0 ≡ pos 0)
      → ros_command s words (some cb) old ≡ (rc, ctx, s')
      → is_neg rc ≡ false
      → (left : List Sentence) × Complete cb (received s words) old ctx left
  ros_command-Complete s words cb old rc ctx s' calm h n =
      let (left, e) = ros_command_good s words (some cb) old rc ctx s' h n in
      (left, drain-Complete cb (λ st c d. calm st c) (received s words) old rc ctx left e n)

  -- The same for a callback that can fail only on `!done`.
  pub ros_command-Complete_done :
      {C : Type 0} (s : Session R) (words : List Text) (cb : Callback C) (old : C) (rc : ℤ)
      (ctx : C) (s' : Session R)
      → ((st : Sentence) (c : C) → is_done st ≡ false → (cb st c).0 ≡ pos 0)
      → ros_command s words (some cb) old ≡ (rc, ctx, s')
      → is_neg rc ≡ false
      → (left : List Sentence) × Complete cb (received s words) old ctx left
  ros_command-Complete_done s words cb old rc ctx s' calm h n =
      let (left, e) = ros_command_good s words (some cb) old rc ctx s' h n in
      (left, drain-Complete cb calm (received s words) old rc ctx left e n)
