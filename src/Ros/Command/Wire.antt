-- ===== src/Ros/Command/Wire.antt =====
-- About `ros_command` of src/routeros_api.c on the byte stream.
use susanin.Prelude.{ℕ, zero, suc, ◌^◌, ◌<◌, ◌≤◌, ◌≡◌, ◌≢◌, refl, ◌∙◌, true, false, List, [], ◌∷◌}
use susanin.Prelude.{
  ◌++◌, Option, some, length, length-append, All, arith, Option-cases, Bool-cases, inl, inr,
}
use susanin.Prelude.Int.{ℤ, pos}
use susanin.Prelude.Text.{Text}
use susanin.Ros.Socket.{Stream}
use susanin.Ros.Socket.Delivers.{available}
use susanin.Ros.Frame.{encode_len, send_word}
use susanin.Ros.Sentence.{Sentence, ros_max_words, recv_sentence}
use susanin.Ros.Sentence.RoundTrip.{
  IsWord, sentence_bytes, recv_sentence-sentence_bytes, recv_sentence_takes, length-sentence_bytes,
}
use susanin.Ros.Command.{
  Callback, Ending, finished, fatal, broken, stuck, is_done, is_fatal, send_words,
}
use susanin.Ros.Command.{take_reply, drain, reply_loop, wire_command}
use mathlib.Core.List.{append_assoc, append-nil}

abbrev pub IsSentence : Sentence → Type 0
IsSentence s = All IsWord s × (length s ≤ ros_max_words)

abbrev pub replies_bytes : List Sentence → List ℕ
replies_bytes [] = []
replies_bytes (s ∷ ss) = sentence_bytes s ++ replies_bytes ss

module _ {C : Type 0} (cb : Option (Callback C)) where
  -- The same end, with the bytes of the sentences that are left still unread.
  abbrev pub Agrees : List ℕ → Ending (List Sentence) C → Ending Stream C → Type 0
  Agrees rest (finished rc c left) e =
      (s' : Stream) × (e ≡ finished rc c s') × (available s' ≡ replies_bytes left ++ rest)
  Agrees rest (fatal c) e = e ≡ fatal c
  Agrees rest (broken c) e = Unit
  Agrees rest stuck e = ⊥

  reply_loop_step :
      (fuel : ℕ) (rc : ℤ) (ctx : C) (st : Sentence) (s s' : Stream)
      → recv_sentence s ≡ some (st, s')
      → is_fatal st ≡ false
      → is_done st ≡ false
      → reply_loop cb (suc fuel) rc ctx s
        ≡ reply_loop cb fuel (take_reply cb st rc ctx).0 (take_reply cb st rc ctx).1 s'
  unfolding reply_loop
  reply_loop_step fuel rc ctx st s s' r f d = rw (r, reply_loop) (rw f (rw d))

  reply_loop_fatal :
      (fuel : ℕ) (rc : ℤ) (ctx : C) (st : Sentence) (s s' : Stream)
      → recv_sentence s ≡ some (st, s')
      → is_fatal st ≡ true
      → reply_loop cb (suc fuel) rc ctx s ≡ fatal (take_reply cb st rc ctx).1
  unfolding reply_loop
  reply_loop_fatal fuel rc ctx st s s' r f = rw (r, reply_loop) (rw f)

  reply_loop_done :
      (fuel : ℕ) (rc : ℤ) (ctx : C) (st : Sentence) (s s' : Stream)
      → recv_sentence s ≡ some (st, s')
      → is_fatal st ≡ false
      → is_done st ≡ true
      → reply_loop cb (suc fuel) rc ctx s
        ≡ finished (take_reply cb st rc ctx).0 (take_reply cb st rc ctx).1 s'
  unfolding reply_loop
  reply_loop_done fuel rc ctx st s s' r f d = rw (r, reply_loop) (rw f (rw d))

  -- The reply loop always ends.
  pub reply_loop-ne-stuck :
      (fuel : ℕ) (rc : ℤ) (ctx : C) (s : Stream)
      → length (available s) < fuel
      → reply_loop cb fuel rc ctx s ≢ stuck
  unfolding reply_loop
  reply_loop-ne-stuck zero rc ctx s h = absurd (omega arith)
  reply_loop-ne-stuck (suc fuel) rc ctx s h = elim (Option-cases (recv_sentence s)) [
    | inl e ↦ rw (e, reply_loop) (λ p. cc)
    | inr ((st, s'), e) ↦ elim (Bool-cases (is_fatal st)) [
      | inl f ↦ rw (e, reply_loop) (rw f (λ p. cc))
      | inr f ↦ elim (Bool-cases (is_done st)) [
        | inl d ↦ rw (e, reply_loop) (rw f (rw d (λ p. cc)))
        | inr d ↦
            rw (e, reply_loop)
              (rw f (
                rw d (
                  reply_loop-ne-stuck fuel (take_reply cb st rc ctx).0 (take_reply cb st rc ctx).1
                    s' (omega (arith, recv_sentence_takes s st s' e)))))
      ]
    ]
  ]

  reply_loop-drain :
      (ss : List Sentence) (fuel : ℕ) (rc : ℤ) (ctx : C) (rest : List ℕ) (s : Stream)
      → All IsSentence ss
      → available s ≡ replies_bytes ss ++ rest
      → length ss ≤ fuel
      → Agrees rest (drain cb rc ctx ss) (reply_loop cb fuel rc ctx s)
  unfolding drain
  reply_loop-drain [] fuel rc ctx rest s v e h = tt
  reply_loop-drain (st ∷ ss) zero rc ctx rest s v e h = absurd (omega arith)
  reply_loop-drain (st ∷ ss) (suc fuel) rc ctx rest s (vs, v) e h =
      let (s', r, a) =
        recv_sentence-sentence_bytes st (replies_bytes ss ++ rest) s vs.1 vs.0
          (e ∙ append_assoc (sentence_bytes st) (replies_bytes ss) rest) in
      elim (Bool-cases (is_fatal st)) [
        | inl f ↦ rw (f) (reply_loop_fatal fuel rc ctx st s s' r f)
        | inr f ↦ elim (Bool-cases (is_done st)) [
          | inl d ↦ rw (f) (rw d (s', reply_loop_done fuel rc ctx st s s' r f d, a))
          | inr d ↦ rw (f) (
              rw d (
                rw (reply_loop_step fuel rc ctx st s s' r f d) (
                  reply_loop-drain ss fuel (take_reply cb st rc ctx).0 (take_reply cb st rc ctx).1
                    rest s' v a (omega arith))))
        ]
      ]

length-replies_bytes : (ss : List Sentence) → length ss ≤ length (replies_bytes ss)
length-replies_bytes [] = omega arith
length-replies_bytes (s ∷ ss) = omega (
  arith,
  length-append (sentence_bytes s) (replies_bytes ss),
  length-sentence_bytes s,
  length-replies_bytes ss,
)

send_word-fits : (w : Text) → length w < 2 ^ 32 → send_word w ≡ some (encode_len (length w) ++ w)
unfolding send_word
send_word-fits w h = ground arith

-- `send_word` writes what `recv_sentence` reads.
send_words-sentence_bytes :
    (ws : List Text) → All IsWord ws → send_words ws ≡ some (sentence_bytes ws)
unfolding send_words sentence_bytes
send_words-sentence_bytes [] v = rw (send_word-fits [] (omega arith)) (rw append-nil)
send_words-sentence_bytes (w ∷ ws) (v, vs) =
    rw (send_word-fits w v.fits, send_words)
      (rw (send_words-sentence_bytes ws vs) (rw append_assoc))

-- `ros_command` on any connection returns: its reply loop ends, whatever the router sends.
pub wire_command-ne-stuck :
    {C : Type 0} (cb : Option (Callback C)) (words : List Text) (ctx : C) (s : Stream)
    → (wire_command cb words ctx s).1 ≢ stuck
unfolding wire_command
wire_command-ne-stuck cb [] ctx s = λ p. cc
wire_command-ne-stuck cb (w ∷ ws) ctx s = elim (Option-cases (send_words (w ∷ ws))) [
  | inl e ↦ rw (e, wire_command) (λ p. cc)
  | inr (bytes, e) ↦
      rw (e, wire_command)
        (reply_loop-ne-stuck cb (suc (length (available s))) (pos 0) ctx s (omega arith))
]

-- `ros_command` writes its words as one sentence. On replies that are sentences, cut into segments in
-- any way, it ends as the loop over those sentences does, when this comes to a `!done` or a `!fatal`
-- among them; behind `!done`, the bytes that are still unread start with the next sentence.
pub wire_command-drain :
    {C : Type 0} (cb : Option (Callback C)) (w : Text) (ws : List Text) (ctx : C)
    (ss : List Sentence) (rest : List ℕ) (s : Stream)
    → All IsWord (w ∷ ws)
    → All IsSentence ss
    → available s ≡ replies_bytes ss ++ rest
    → ((wire_command cb (w ∷ ws) ctx s).0 ≡ some (sentence_bytes (w ∷ ws)))
      × Agrees cb rest (drain cb (pos 0) ctx ss) (wire_command cb (w ∷ ws) ctx s).1
unfolding wire_command
wire_command-drain cb w ws ctx ss rest s vw vs e =
    rw (send_words-sentence_bytes (w ∷ ws) vw, wire_command)
      (
        refl,
        reply_loop-drain cb ss (suc (length (available s))) (pos 0) ctx rest s vs e
            (rw e (omega (arith, length-append (replies_bytes ss) rest, length-replies_bytes ss))),
      )
