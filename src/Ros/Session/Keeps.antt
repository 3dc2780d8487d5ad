-- ===== src/Ros/Session/Keeps.antt =====
-- About the contexts of callbacks behind `ros_command` of src/routeros_api.c.
use susanin.Prelude.{not, ◌||◌, List, some, Bool-cases, inl, inr}
use susanin.Prelude.Int.{pos}
use susanin.Prelude.Text.{Text}
use susanin.Ros.Sentence.{Sentence}
use susanin.Ros.Command.{Callback, Ending, finished, fatal, broken, stuck, drain}
use susanin.Ros.Command.Keeps.{Holds, drain-keeps}
use susanin.Ros.Session.{Router, Session, settle, issue, has_no_words, ros_command}

module _ {C : Type 0} (Inv : C → Type 0) (cb : Callback C)
    (keeps : (st : Sentence) (c : C) → Inv c → Inv (cb st c).1) where
  settle-keeps :
      {R : Router} (s : Session R) (e : Ending (List Sentence) C) (old : C)
      → Holds Inv e
      → Inv old
      → Inv (settle s e old).1
  unfolding settle Holds
  settle-keeps s (finished rc c left) old h i = h
  settle-keeps s (fatal c) old h i = h
  settle-keeps s (broken c) old h i = h
  settle-keeps s stuck old h i = i

  pub ros_command-keeps :
      {R : Router} (s : Session R) (words : List Text) (c : C)
      → Inv c
      → Inv (ros_command s words (some cb) c).1
  unfolding ros_command
  ros_command-keeps s words c i = elim (Bool-cases (not s.is_open || has_no_words words)) [
    | inl e ↦ rw (e) i
    | inr e ↦
        let s' = issue s words in
        rw (e) (
          settle-keeps s' (drain (some cb) (pos 0) c s'.pending) c
            (drain-keeps Inv cb keeps s'.pending (pos 0) c i) i)
  ]
