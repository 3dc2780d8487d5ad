-- ===== src/Ros/Sentence.antt =====
-- Sentences, src/routeros_api.c: `recv_sentence`, `ros_is_reply` and `ros_get_attr`.
-- A stored word is read as a C string by everything that follows, so it is kept up to its first NUL.
-- The two allocations of `recv_sentence` are taken to succeed.
pub mod RoundTrip
pub mod Attr
use susanin.Prelude.{ℕ, zero, suc, Bool, false, true, ◌&&◌, List, [], ◌∷◌, ◌++◌, Option, none, some}
use susanin.Prelude.{◌==◌, if◌then◌else◌}
use susanin.Prelude.Text.{Text, str_eq, after_prefix, c_string}
use susanin.Ros.Socket.{Stream, read_all}
use susanin.Ros.Frame.{recv_len}

abbrev pub Sentence : Type 0
Sentence = List Text

abbrev pub ros_max_words : ℕ
ros_max_words = 128

-- The loop of `recv_sentence`; `room` is what `ROS_MAX_WORDS` leaves for more words.
unfoldable pub recv_words : ℕ → Sentence → Stream → Option (Sentence × Stream)
recv_words zero words s = elim (recv_len s) [
  | none ↦ none
  | some (len, s') ↦ if len == 0 then some (words, s') else none
]
recv_words (suc room) words s = elim (recv_len s) [
  | none ↦ none
  | some (len, s') ↦ elim (len == 0) [
    | true ↦ some (words, s')
    | false ↦ elim (read_all len s') [
      | none ↦ none
      | some (w, s'') ↦ recv_words room (words ++ (c_string w ∷ [])) s''
    ]
  ]
]

unfoldable pub recv_sentence : Stream → Option (Sentence × Stream)
unfolding recv_words
recv_sentence s = recv_words ros_max_words [] s

-- `ros_is_reply`: the first word is the reply word.
unfoldable pub is_reply : Sentence → Text → Bool
is_reply [] reply = false
is_reply (w ∷ ws) reply = str_eq w reply

-- The value in one word, when it is `=key=value`.
unfoldable pub attr_of : Text → Text → Option Text
attr_of [] key = none
attr_of (c ∷ cs) key =
    if c == b'='
    then (elim (after_prefix key cs) [
      | none ↦ none
      | some rest ↦ elim rest [ [] ↦ none | d ∷ value ↦ if d == b'=' then some value else none ]
    ])
    else none

unfoldable pub find_attr : List Text → Text → Option Text
find_attr [] key = none
find_attr (w ∷ ws) key = elim (attr_of w key) [ none ↦ find_attr ws key | some v ↦ some v ]

-- `ros_get_attr`: the first word behind the reply word that holds the attribute.
unfoldable pub get_attr : Sentence → Text → Option Text
unfolding find_attr attr_of
get_attr [] key = none
get_attr (w ∷ ws) key = find_attr ws key
