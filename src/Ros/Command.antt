-- ===== src/Ros/Command.antt =====
-- One command, src/routeros_api.c: the words that `ros_command` sends and the loop that reads its
-- replies through the final `!done`.
pub mod Drain
pub mod Wire
pub mod Success
pub mod Keeps
use susanin.Prelude.{
  ℕ, zero, suc, Bool, true, false, not, ◌&&◌, List, [], ◌∷◌, ◌++◌, Option, none, some,
}
use susanin.Prelude.{if◌then◌else◌, length}
use susanin.Prelude.Int.{ℤ, pos, minus_one, is_zero}
use susanin.Prelude.Text.{Text, codes}
use susanin.Ros.Socket.{Stream}
use susanin.Ros.Socket.Delivers.{available}
use susanin.Ros.Frame.{send_word}
use susanin.Ros.Sentence.{Sentence, is_reply, recv_sentence}

abbrev pub Callback : Type 0 → Type 0
Callback C = Sentence → C → ℤ × C

-- How the reply loop of one command ends. `finished` returns the command's result, `fatal` closes the
-- connection, `broken` is a sentence that could not be received; the last two return -1. `stuck` is no
-- end of the program: the loop of the model ran out of fuel.
pub data Ending (R C : Type 0) : Type 0 where
  finished : ℤ → C → R → Ending R C
  fatal : C → Ending R C
  broken : C → Ending R C
  stuck : Ending R C

unfoldable pub is_done : Sentence → Bool
is_done s = is_reply s (codes "!done")

unfoldable pub is_trap : Sentence → Bool
is_trap s = is_reply s (codes "!trap")

unfoldable pub is_fatal : Sentence → Bool
is_fatal s = is_reply s (codes "!fatal")

-- Every word of the command and the empty word that ends it; `none` when a word is too long.
pub send_words : List Text → Option (List ℕ)
send_words [] = send_word []
send_words (w ∷ ws) = elim (send_word w) [
  | none ↦ none
  | some bytes ↦ elim (send_words ws) [ none ↦ none | some more ↦ some (bytes ++ more) ]
]

-- `command_rc` behind one sentence, from the callback's result.
next_rc : Sentence → ℤ → ℤ → ℤ
next_rc s cb_rc rc =
    let rc1 = if not (is_zero cb_rc) && is_zero rc then cb_rc else rc in
    if is_trap s && is_zero rc1 then minus_one else rc1

module _ {C : Type 0} (cb : Option (Callback C)) where
  -- `cb_rc` and the context: the callback is called only while nothing has failed.
  call : Sentence → ℤ → C → ℤ × C
  call s rc ctx = elim cb [
    | none ↦ (pos 0, ctx)
    | some f ↦ if is_zero rc then f s ctx else (pos 0, ctx)
  ]

  -- `command_rc` and the context behind one sentence.
  unfoldable pub take_reply : Sentence → ℤ → C → ℤ × C
  unfolding call next_rc is_trap
  take_reply s rc ctx = let (cb_rc, ctx') = call s rc ctx in (next_rc s cb_rc rc, ctx')

  -- The loop of `ros_command` over received sentences: what stands behind the last is left.
  unfoldable pub drain : ℤ → C → List Sentence → Ending (List Sentence) C
  unfolding is_done is_fatal
  drain rc ctx [] = broken ctx
  drain rc ctx (s ∷ rest) =
      let more = drain (take_reply s rc ctx).0 (take_reply s rc ctx).1 rest in
      if is_fatal s
      then fatal (take_reply s rc ctx).1
      else if is_done s
      then finished (take_reply s rc ctx).0 (take_reply s rc ctx).1 rest
      else more

  -- The loop over the stream.
  pub reply_loop : ℕ → ℤ → C → Stream → Ending Stream C
  reply_loop zero rc ctx s = stuck
  reply_loop (suc fuel) rc ctx s = elim (recv_sentence s) [
    | none ↦ broken ctx
    | some (st, s') ↦ elim (is_fatal st) [
      | true ↦ fatal (take_reply st rc ctx).1
      | false ↦ elim (is_done st) [
        | true ↦ finished (take_reply st rc ctx).0 (take_reply st rc ctx).1 s'
        | false ↦ reply_loop fuel (take_reply st rc ctx).0 (take_reply st rc ctx).1 s'
      ]
    ]
  ]

  -- `ros_command` on an open connection: the bytes written, and how the reply loop ends. A sentence
  -- takes a byte at least, so one round more than there are bytes is enough.
  pub wire_command : List Text → C → Stream → Option (List ℕ) × Ending Stream C
  wire_command [] ctx s = (none, broken ctx)
  wire_command (w ∷ ws) ctx s = elim (send_words (w ∷ ws)) [
    | none ↦ (none, broken ctx)
    | some bytes ↦ (some bytes, reply_loop (suc (length (available s))) (pos 0) ctx s)
  ]
