-- ===== src/Ros/Session.antt =====
-- The API as the rest of the controller uses it: `ros_command`, `ros_login` and `ros_close` over a
-- router that answers with sentences. Ros/Command/Wire.antt relates this view to the byte stream.
pub mod Log
pub mod Calls
pub mod Keeps
pub mod Leads
use susanin.Prelude.{
  ℕ, Bool, true, false, not, List, [], ◌∷◌, ◌++◌, Option, none, some, if◌then◌else◌, ◌||◌,
}
use susanin.Prelude.Int.{ℤ, pos, minus_one}
use susanin.Prelude.Text.{Text, codes, copy_to}
use susanin.Ros.Sentence.{Sentence}
use susanin.Ros.Command.{Callback, Ending, finished, fatal, broken, stuck, is_trap, is_fatal, drain}

-- The router is not code of this repository: a command takes it to a new state, and it sends sentences.
-- A command that cannot be sent is one that is answered by nothing. `later` is what becomes of the
-- router while the controller sleeps.
pub record Router : Type 1 where
  pub World : Type 0
  pub exchange : World → List Text → World × List Sentence
  pub later : World → World

-- `ros_client_t` with the router behind it. `pending` holds sentences that the last command left
-- unread, and `sent` the commands sent so far.
pub record Session (R : Router) : Type 0 where
  pub world : R.World
  pub is_open : Bool
  pub pending : List Sentence
  pub sent : List (List Text)

unfoldable pub has_no_words : List Text → Bool
has_no_words [] = true
has_no_words (w ∷ ws) = false

login_cb : Callback (Unit {0})
login_cb s ctx = (if is_trap s || is_fatal s then minus_one else pos 0, ctx)

module _ {R : Router} where
  -- The command's result, the callback's context and the session behind the command.
  settle : {C : Type 0} → Session R → Ending (List Sentence) C → C → ℤ × C × Session R
  settle s (finished rc ctx left) old = (rc, ctx, record s { pending = left })
  settle s (fatal ctx) old = (minus_one, ctx, record s { is_open = false; pending = [] })
  settle s (broken ctx) old = (minus_one, ctx, record s { pending = [] })
  settle s stuck old = (minus_one, old, s)

  issue : Session R → List Text → Session R
  issue s words =
      let (w, replies) = R.exchange s.world words in
      record s { world = w; pending = s.pending ++ replies; sent = s.sent ++ (words ∷ []) }

  unfoldable pub ros_command :
      {C : Type 0} → Session R → List Text → Option (Callback C) → C → ℤ × C × Session R
  unfolding settle issue has_no_words
  ros_command s words cb ctx =
      let s' = issue s words in
      if not s.is_open || has_no_words words
      then (minus_one, ctx, s)
      else settle s' (drain cb (pos 0) ctx s'.pending) ctx

  -- `sleep_ms`
  unfoldable pub sleep : Session R → Session R
  sleep s = record s { world = R.later s.world }

  unfoldable pub ros_close : Session R → Session R
  ros_close s = record s { is_open = false }

  -- `ros_login`, with its buffers of 320 and 1024 bytes.
  unfoldable pub ros_login : Session R → Text → Text → ℤ × Session R
  unfolding ros_command login_cb
  ros_login s user password =
      let name = copy_to 320 (codes "=name=" ++ user) in
      let pass = copy_to 1024 (codes "=password=" ++ password) in
      let (rc, _, s') = ros_command s (codes "/login" ∷ name ∷ pass ∷ []) (some login_cb) tt in
      (rc, s')
