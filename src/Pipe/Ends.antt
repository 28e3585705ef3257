-- ===== src/Pipe/Ends.antt =====
-- Processes at the two ends of a pipe, and the stretches that they run, in any order.
-- `wakeup` wakes all that sleep on a channel, so of the sleepers it matters only if there are any.
-- A process in `piperead` or `pipewrite` holds its end open: file.c calls `pipeclose` on an end
-- only when the last reference to it is gone.
use os_lab.Base.{
  ℕ, ◌-◌, ◌≡◌, Bool, true, false, not, ◌&&◌, ◌||◌, some, List, [], ◌∷◌, ◌++◌, length, take,
}
use os_lab.Pipe.{
  Pipe, pipesize, Chan, nread_chan, nwrite_chan, WriteEnd, write_asleep, ReadEnd, read_asleep,
  read_bytes, pipewrite, piperead, pipeclose,
}
use os_lab.Pipe.Window.{contents}

pub record System : Type 0 where
  pub pipe : Pipe
  pub readers : Bool  -- a process sleeps on `nread`
  pub writers : Bool  -- a process sleeps on `nwrite`
  pub sent : List ℕ  -- what has gone into the pipe so far
  pub got : List ℕ  -- what `piperead` has returned so far

abbrev pub wakes_readers : List Chan → Bool
wakes_readers [] = false
wakes_readers (nread_chan ∷ l) = true
wakes_readers (nwrite_chan ∷ l) = wakes_readers l

abbrev pub wakes_writers : List Chan → Bool
wakes_writers [] = false
wakes_writers (nread_chan ∷ l) = wakes_writers l
wakes_writers (nwrite_chan ∷ l) = true

abbrev pub waits_write : WriteEnd → Bool
waits_write (write_asleep l) = true
waits_write _ = false

abbrev pub waits_read : ReadEnd → Bool
waits_read read_asleep = true
waits_read _ = false

abbrev pub returned : ReadEnd → List ℕ
returned (read_bytes l) = l
returned _ = []

abbrev pub after_write : System → List ℕ → Bool → System
after_write s xs killed =
    let r = pipewrite s.pipe xs killed in
    record {
      pipe = r.0;
      readers = s.readers && not (wakes_readers r.2);
      writers = s.writers && not (wakes_writers r.2) || waits_write r.1;
      sent = s.sent ++ take (pipesize - length (contents s.pipe)) xs;
      got = s.got;
    }

abbrev pub after_read : System → ℕ → Bool → System
after_read s n killed =
    let r = piperead s.pipe n killed in
    record {
      pipe = r.0;
      readers = s.readers && not (wakes_readers r.2) || waits_read r.1;
      writers = s.writers && not (wakes_writers r.2);
      sent = s.sent;
      got = s.got ++ returned r.1;
    }

-- The last stretches are those of processes that are not killed, and the closing of one end while
-- the other is open.
pub data Step (s : System) : System → Type 0 where
  write : (xs : List ℕ) → s.pipe.writeopen ≡ true → Step s (after_write s xs false)
  read : (n : ℕ) (killed : Bool) → s.pipe.readopen ≡ true → Step s (after_read s n killed)
  close_write :
      {q : Pipe}
      → s.writers ≡ false
      → (pipeclose s.pipe true).0 ≡ some q
      → Step s (record s { pipe = q; readers = false })
  close_read :
      {q : Pipe}
      → s.readers ≡ false
      → (pipeclose s.pipe false).0 ≡ some q
      → Step s (record s { pipe = q; writers = false })

pub data Reach (s : System) : System → Type 0 where
  here : Reach s s
  next : {t u : System} → Reach s t → Step t u → Reach s u
