-- ===== src/Gc/Commands.antt =====
-- The commands that the collection of src/gc.c may send.
use susanin.Prelude.{◌≡◌, false, List, [], ◌∷◌, ◌++◌}
use susanin.Prelude.Text.{Text, codes, copy_to}
use susanin.Ros.Session.Log.{is_change}
use susanin.Gc.FailSafe.{pause_words}
use susanin.StateCleanup.Disable.{disable_words}

abbrev pub removal : Text → Text → List Text
removal remove_cmd id = remove_cmd ∷ copy_to 96 (codes "=.id=" ++ id) ∷ []

-- Queries, the removal of one mangle rule or one tracked connection, and the fail-open writes.
pub data IsGcCommand : List Text → Type 0 where
  inquiry : {words : List Text} → is_change words ≡ false → IsGcCommand words
  rule : (id : Text) → IsGcCommand (removal (codes "/ip/firewall/mangle/remove") id)
  mark : (id : Text) → IsGcCommand (removal (codes "/ip/firewall/connection/remove") id)
  pause : (id : Text) → IsGcCommand (pause_words id)
  disable : (id : Text) → IsGcCommand (disable_words id)
