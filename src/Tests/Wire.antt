-- ===== src/Tests/Wire.antt =====
-- The theorems about src/routeros_api.c, applied.
use susanin.Prelude.{
  ℕ, zero, suc, ◌≡◌, ◌≢◌, ◌↔◌, ◌≤◌, refl, [], ◌∷◌, ◌++◌, some, length, All, arith,
}
use susanin.Prelude.Int.{pos, minus_one}
use susanin.Prelude.Text.{codes}
use susanin.Ros.Socket.{Stream, segment}
use susanin.Ros.Socket.Delivers.{available}
use susanin.Ros.Frame.{encode_len}
use susanin.Ros.Frame.RoundTrip.{length-encode_len}
use susanin.Ros.Sentence.{Sentence, recv_sentence, attr_of}
use susanin.Ros.Sentence.RoundTrip.{IsWord, sentence_bytes, recv_sentence-sentence_bytes}
use susanin.Ros.Sentence.Attr.{attr_word, attr_of_iff}
use susanin.Ros.Command.{Callback, stuck, drain, wire_command}
use susanin.Ros.Command.Wire.{replies_bytes, Agrees, wire_command-ne-stuck, wire_command-drain}

length-encode_len_example : (1 ≤ length (encode_len 300)) × (length (encode_len 300) ≤ 5)
length-encode_len_example = length-encode_len 300

abbrev done : Sentence
done = codes "!done" ∷ []

done-IsWord : All IsWord done
unfolding codes
done-IsWord = (
  record {
    nonempty = λ e. cc;
    no_nul = (omega arith, (omega arith, (omega arith, (omega arith, (omega arith, tt)))));
    fits = omega arith;
  },
  tt,
)

-- `!done` in two segments, and a byte behind it.
abbrev done_stream : Stream
done_stream = segment (5 ∷ 33 ∷ 100 ∷ []) ∷ segment (111 ∷ 110 ∷ 101 ∷ 0 ∷ 9 ∷ []) ∷ []

done_stream-bytes : available done_stream ≡ sentence_bytes done ++ (9 ∷ [])
unfolding sentence_bytes encode_len codes
done_stream-bytes = refl

recv_sentence-sentence_bytes_example :
    (s' : Stream) × (recv_sentence done_stream ≡ some (done, s')) × (available s' ≡ 9 ∷ [])
recv_sentence-sentence_bytes_example =
    recv_sentence-sentence_bytes done (9 ∷ []) done_stream (omega arith) done-IsWord
      done_stream-bytes

attr_of_iff_example :
    (attr_of (codes "=list=a") (codes "list") ≡ some (codes "a"))
    ↔ (codes "=list=a" ≡ attr_word (codes "list") (codes "a"))
attr_of_iff_example = attr_of_iff (codes "=list=a") (codes "list") (codes "a")

-- A callback that counts what it is shown, and fails from the second sentence on.
abbrev counting : Callback ℕ
counting s zero = (pos 0, 1)
counting s (suc n) = (minus_one, suc (suc n))

wire_command-ne-stuck_example :
    (wire_command (some counting) (codes "/a/print" ∷ []) 0 done_stream).1 ≢ stuck
wire_command-ne-stuck_example =
    wire_command-ne-stuck (some counting) (codes "/a/print" ∷ []) 0 done_stream

command-IsWord : All IsWord (codes "/a" ∷ [])
unfolding codes
command-IsWord = (
  record { nonempty = λ e. cc; no_nul = (omega arith, (omega arith, tt)); fits = omega arith },
  tt,
)

done_bytes : available done_stream ≡ replies_bytes (done ∷ []) ++ (9 ∷ [])
unfolding sentence_bytes encode_len codes
done_bytes = refl

wire_command-drain_example :
    ((wire_command (some counting) (codes "/a" ∷ []) 0 done_stream).0
      ≡ some (sentence_bytes (codes "/a" ∷ [])))
    × Agrees
        (some counting)
        (9 ∷ [])
        (drain (some counting) (pos 0) 0 (done ∷ []))
        (wire_command (some counting) (codes "/a" ∷ []) 0 done_stream).1
wire_command-drain_example =
    wire_command-drain (some counting) (codes "/a") [] 0 (done ∷ []) (9 ∷ []) done_stream
      command-IsWord ((done-IsWord, omega arith), tt) done_bytes
