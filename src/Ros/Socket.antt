-- ===== src/Ros/Socket.antt =====
-- The TCP receive side of src/routeros_api.c: `read_all` over what the kernel hands out.
-- A stream lists what successive `recv` calls meet: segments of the receive queue, interrupted calls
-- and errors. The list ends where the peer closed the connection.
pub mod Delivers
use susanin.Prelude.{ℕ, zero, suc, ◌+◌, ◌-◌, List, [], ◌∷◌, ◌++◌, Option, none, some, leb, length}
use susanin.Prelude.{take, drop, if◌then◌else◌}

pub data Event : Type 0 where
  segment : List ℕ → Event
  interrupted : Event
  failed : Event

abbrev pub Stream : Type 0
Stream = List Event

-- `recv(fd, p, len, 0)` takes at most `len` bytes of the first segment; the rest stays queued.
unfoldable pub push_back : List ℕ → Stream → Stream
push_back [] s = s
push_back (b ∷ bs) s = segment (b ∷ bs) ∷ s

-- The loop of `read_all` with `len` bytes still missing and `got` in the buffer. An empty segment is
-- `recv` returning 0.
unfoldable pub read_loop : ℕ → List ℕ → Stream → Option (List ℕ × Stream)
read_loop zero got s = some (got, s)
read_loop (suc n) got [] = none
read_loop (suc n) got (interrupted ∷ s) = read_loop (suc n) got s
read_loop (suc n) got (failed ∷ s) = none
read_loop (suc n) got (segment [] ∷ s) = none
read_loop (suc n) got (segment (b ∷ bs) ∷ s) =
    if leb (length bs) n
    then read_loop (n - length bs) (got ++ (b ∷ bs)) s
    else some (got ++ (b ∷ take n bs), push_back (drop n bs) s)

unfoldable pub read_all : ℕ → Stream → Option (List ℕ × Stream)
read_all len s = read_loop len [] s
