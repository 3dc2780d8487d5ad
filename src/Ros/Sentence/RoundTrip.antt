-- ===== src/Ros/Sentence/RoundTrip.antt =====
-- About `recv_sentence` of src/routeros_api.c.
use susanin.Prelude.{ℕ, zero, suc, ◌+◌, ◌^◌, ◌<◌, ◌≤◌, ◌≡◌, ◌≢◌, refl, ◌∙◌, List, [], ◌∷◌, ◌++◌}
use susanin.Prelude.{some, length, length-append, All, arith, ◌==◌, Option-cases, inl, inr}
use susanin.Prelude.{false, Bool-cases}
use susanin.Prelude.Text.{Text, c_string, c_string-All}
use susanin.Ros.Socket.{Stream, read_all}
use susanin.Ros.Socket.Delivers.{available, read_all-available, read_all_takes}
use susanin.Ros.Frame.{encode_len, recv_len}
use susanin.Ros.Frame.RoundTrip.{recv_len-encode_len, recv_len_takes, length-encode_len}
use susanin.Ros.Sentence.{Sentence, ros_max_words, recv_words, recv_sentence}
use mathlib.Core.List.{append_assoc, append-nil}

-- A word that the protocol and C strings can carry.
pub record IsWord (w : Text) : Type 0 where
  pub nonempty : w ≢ []
  pub no_nul : All (λ c. c ≢ 0) w
  pub fits : length w < 2 ^ 32

-- The bytes of a sentence: each word behind its length, and the empty word.
unfoldable pub sentence_bytes : Sentence → List ℕ
sentence_bytes [] = encode_len 0
sentence_bytes (w ∷ ws) = encode_len (length w) ++ (w ++ sentence_bytes ws)

length-ne-zero : (w : Text) → w ≢ [] → (length w == 0) ≡ false
length-ne-zero [] h = absurd (h refl)
length-ne-zero (c ∷ w) h = ground arith

recv_words_end :
    (room : ℕ) (words : Sentence) (rest : List ℕ) (s : Stream)
    → available s ≡ encode_len 0 ++ rest
    → (s' : Stream) × (recv_words room words s ≡ some (words, s')) × (available s' ≡ rest)
unfolding recv_words
recv_words_end zero words rest s e =
    let (s1, r1, a1) = recv_len-encode_len 0 rest s (omega arith) e in
    (s1, rw (r1, recv_words) refl, a1)
recv_words_end (suc room) words rest s e =
    let (s1, r1, a1) = recv_len-encode_len 0 rest s (omega arith) e in
    (s1, rw (r1, recv_words) refl, a1)

recv_words_step :
    (room len : ℕ) (words : Sentence) (w : Text) (s s1 s2 : Stream)
    → recv_len s ≡ some (len, s1)
    → (len == 0) ≡ false
    → read_all len s1 ≡ some (w, s2)
    → recv_words (suc room) words s ≡ recv_words room (words ++ (c_string w ∷ [])) s2
unfolding recv_words
recv_words_step room len words w s s1 s2 r1 z r2 = rw (r1, recv_words) (rw z (rw r2))

recv_words-sentence_bytes :
    (room : ℕ) (words ws : Sentence) (rest : List ℕ) (s : Stream)
    → length ws ≤ room
    → All IsWord ws
    → available s ≡ sentence_bytes ws ++ rest
    → (s' : Stream) × (recv_words room words s ≡ some (words ++ ws, s')) × (available s' ≡ rest)
unfolding sentence_bytes
recv_words-sentence_bytes room words [] rest s h v e =
    rw append-nil (recv_words_end room words rest s e)
recv_words-sentence_bytes zero words (w ∷ ws) rest s h v e = absurd (omega arith)
recv_words-sentence_bytes (suc room) words (w ∷ ws) rest s h (vw, vs) e =
    let (s1, r1, a1) =
      recv_len-encode_len (length w) (w ++ (sentence_bytes ws ++ rest)) s vw.fits
        (e ∙ simp append_assoc) in
    let (s2, r2, a2) = read_all-available w (sentence_bytes ws ++ rest) s1 a1 in
    let (s3, r3, a3) =
      recv_words-sentence_bytes room (words ++ (w ∷ [])) ws rest s2 (omega arith) vs a2 in
    (
      s3,
      recv_words_step room (length w) words w s s1 s2 r1 (length-ne-zero w vw.nonempty) r2
          ∙ rw (c_string-All w vw.no_nul) (r3 ∙ rw append_assoc),
      a3,
    )

-- At most 128 words come back, in order and unchanged, whatever the segmentation, and the next
-- sentence starts where this one ended.
pub recv_sentence-sentence_bytes :
    (ws : Sentence) (rest : List ℕ) (s : Stream)
    → length ws ≤ ros_max_words
    → All IsWord ws
    → available s ≡ sentence_bytes ws ++ rest
    → (s' : Stream) × (recv_sentence s ≡ some (ws, s')) × (available s' ≡ rest)
unfolding recv_sentence
recv_sentence-sentence_bytes ws rest s h v e =
    recv_words-sentence_bytes ros_max_words [] ws rest s h v e

recv_words_takes :
    (room : ℕ) (words : Sentence) (s : Stream) (ws : Sentence) (s' : Stream)
    → recv_words room words s ≡ some (ws, s')
    → (length (available s') < length (available s)) × (length ws ≤ length words + room)
unfolding recv_words
recv_words_takes zero words s ws s' h = elim (Option-cases (recv_len s)) [
  | inl e ↦ cc (rw (e, recv_words) at h)
  | inr ((len, s1), e) ↦ ground (arith, rw (e, recv_words) at h, recv_len_takes s len s1 e)
]
recv_words_takes (suc room) words s ws s' h = elim (Option-cases (recv_len s)) [
  | inl e ↦ cc (rw (e, recv_words) at h)
  | inr ((len, s1), e) ↦ elim (Bool-cases (len == 0)) [
    | inl z ↦ ground (arith, rw (e, recv_words) at h, recv_len_takes s len s1 e)
    | inr z ↦ elim (Option-cases (read_all len s1)) [
      | inl r ↦ cc (rw (r) at (rw z at (rw (e, recv_words) at h)))
      | inr ((w, s2), r) ↦ ground (
        arith,
        recv_len_takes s len s1 e,
        read_all_takes len s1 w s2 r,
        length-append w (available s2),
        length-append words (c_string w ∷ []),
        recv_words_takes room (words ++ (c_string w ∷ [])) s2 ws s'
            (rw r at (rw z at (rw (e, recv_words) at h))),
      )
    ]
  ]
]

-- Every success takes at least one byte and holds at most 128 words.
pub recv_sentence_takes :
    (s : Stream) (ws : Sentence) (s' : Stream)
    → recv_sentence s ≡ some (ws, s')
    → (length (available s') < length (available s)) × (length ws ≤ ros_max_words)
unfolding recv_sentence
recv_sentence_takes s ws s' h = recv_words_takes ros_max_words [] s ws s' h

pub length-sentence_bytes : (ws : Sentence) → 1 ≤ length (sentence_bytes ws)
unfolding sentence_bytes
length-sentence_bytes [] = omega (arith, length-encode_len 0)
length-sentence_bytes (w ∷ ws) = omega (
  arith,
  length-append (encode_len (length w)) (w ++ sentence_bytes ws),
  length-encode_len (length w),
)
