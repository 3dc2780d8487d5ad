-- ===== src/Ros/Command/Drain.antt =====
-- About the reply loop of `ros_command`, src/routeros_api.c.
use susanin.Prelude.{zero, suc, ◌≡◌, refl, true, false, List, [], ◌∷◌, ◌++◌}
use susanin.Prelude.{some, All, arith, if◌then◌else◌}
use susanin.Prelude.Int.{ℤ, pos, negsuc, minus_one, is_zero}
use susanin.Ros.Sentence.{Sentence}
use susanin.Ros.Command.{Callback, finished, fatal, is_done, is_trap, is_fatal}
use susanin.Ros.Command.{call, next_rc, take_reply, drain}

-- A reply that is not the last one of its command.
abbrev pub GoesOn : Sentence → Type 0
GoesOn s = (is_done s ≡ false) × (is_fatal s ≡ false)

module _ {C : Type 0} (cb : Callback C) where
  -- The first thing that went wrong, with the context that the callback had by then: the callback's
  -- own result, or -1 for a trap. Nothing behind it is shown to the callback.
  abbrev pub first_error : List Sentence → C → ℤ × C
  first_error [] ctx = (pos 0, ctx)
  first_error (s ∷ ss) ctx =
      let (r, ctx') = cb s ctx in
      let later = first_error ss ctx' in
      if is_zero r then (if is_trap s then (minus_one, ctx') else later) else (r, ctx')

  -- A remembered error stays, and the callback is not called again.
  pub take_reply_failed :
      (s : Sentence) (rc : ℤ) (ctx : C)
      → is_zero rc ≡ false
      → take_reply (some cb) s rc ctx ≡ (rc, ctx)
  unfolding take_reply call next_rc
  take_reply_failed s rc ctx h = ground arith

  drain_failed :
      (before : List Sentence) (last : Sentence) (after : List Sentence) (rc : ℤ) (ctx : C)
      → All GoesOn before
      → is_done last ≡ true
      → is_fatal last ≡ false
      → is_zero rc ≡ false
      → drain (some cb) rc ctx (before ++ (last ∷ after)) ≡ finished rc ctx after
  unfolding drain
  drain_failed [] last after rc ctx v d f h = ground (arith, take_reply_failed last rc ctx h)
  drain_failed (s ∷ before) last after rc ctx (v, vs) d f h =
      ground (arith, take_reply_failed s rc ctx h, drain_failed before last after rc ctx vs d f h)

  zero_cases : (r : ℤ) → is_zero r ≡ true → r ≡ pos 0
  zero_cases (pos zero) h = refl
  zero_cases (pos (suc n)) h = cc
  zero_cases (negsuc n) h = cc

  pub take_reply_good :
      (s : Sentence) (ctx : C)
      → take_reply (some cb) s (pos 0) ctx ≡ (
          if is_zero (cb s ctx).0
          then (if is_trap s then (minus_one, (cb s ctx).1) else (pos 0, (cb s ctx).1))
          else cb s ctx)
  unfolding take_reply call next_rc
  take_reply_good s ctx = ground (arith, zero_cases (cb s ctx).0)

  -- A command is read through its `!done`, whatever went wrong before: the result and the context are
  -- those of the first error, and the replies behind `!done` are left for the next command.
  drain-first_error :
      (before : List Sentence) (last : Sentence) (after : List Sentence) (ctx : C)
      → All GoesOn before
      → is_done last ≡ true
      → is_fatal last ≡ false
      → drain (some cb) (pos 0) ctx (before ++ (last ∷ after))
        ≡ finished
            (first_error (before ++ (last ∷ [])) ctx).0
            (first_error (before ++ (last ∷ [])) ctx).1
            after
  unfolding drain
  drain-first_error [] last after ctx v d f = ground (arith, take_reply_good last ctx)
  drain-first_error (s ∷ before) last after ctx (v, vs) d f = ground (
    arith,
    take_reply_good s ctx,
    drain_failed before last after (cb s ctx).0 (cb s ctx).1 vs d f,
    drain_failed before last after minus_one (cb s ctx).1 vs d f,
    drain-first_error before last after (cb s ctx).1 vs d f,
  )

  -- A `!fatal` reply ends the command at once and closes the connection.
  pub drain_fatal :
      (before : List Sentence) (last : Sentence) (after : List Sentence) (rc : ℤ) (ctx : C)
      → All GoesOn before
      → is_fatal last ≡ true
      → (ctx' : C) × (drain (some cb) rc ctx (before ++ (last ∷ after)) ≡ fatal ctx')
  unfolding drain
  drain_fatal [] last after rc ctx v f = ((take_reply (some cb) last rc ctx).1, ground arith)
  drain_fatal (s ∷ before) last after rc ctx (v, vs) f =
      let (rc', ctx') = take_reply (some cb) s rc ctx in
      let (c, e) = drain_fatal before last after rc' ctx' vs f in (c, ground arith)
