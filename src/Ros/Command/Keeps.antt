-- ===== src/Ros/Command/Keeps.antt =====
-- About the contexts of callbacks in the reply loop of `ros_command`, src/routeros_api.c.
use susanin.Prelude.{List, [], ◌∷◌, some, Bool-cases, inl, inr}
use susanin.Prelude.Int.{ℤ, is_zero}
use susanin.Ros.Sentence.{Sentence}
use susanin.Ros.Command.{
  Callback, Ending, finished, fatal, broken, stuck, is_done, is_fatal, call, take_reply, drain,
}

module _ {C : Type 0} (Inv : C → Type 0) where
  unfoldable pub Holds : {L : Type 0} → Ending L C → Type 0
  Holds (finished rc c left) = Inv c
  Holds (fatal c) = Inv c
  Holds (broken c) = Inv c
  Holds stuck = Unit {0}

  module _ (cb : Callback C) (keeps : (st : Sentence) (c : C) → Inv c → Inv (cb st c).1) where
    take_reply-keeps :
        (st : Sentence) (rc : ℤ) (c : C) → Inv c → Inv (take_reply (some cb) st rc c).1
    unfolding take_reply call
    take_reply-keeps st rc c i = elim (Bool-cases (is_zero rc)) [
      | inl e ↦ rw (e) (keeps st c i)
      | inr e ↦ rw (e) i
    ]

    pub drain-keeps :
        (ss : List Sentence) (rc : ℤ) (c : C) → Inv c → Holds (drain (some cb) rc c ss)
    unfolding drain Holds
    drain-keeps [] rc c i = i
    drain-keeps (st ∷ ss) rc c i =
        let (rc1, c1) = take_reply (some cb) st rc c in
        let i1 = take_reply-keeps st rc c i in
        elim (Bool-cases (is_fatal st)) [
          | inl f ↦ rw (f) i1
          | inr f ↦ elim (Bool-cases (is_done st)) [
            | inl d ↦ rw (f) (rw d i1)
            | inr d ↦ rw (f) (rw d (drain-keeps ss rc1 c1 i1))
          ]
        ]
