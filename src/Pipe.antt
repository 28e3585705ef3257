-- ===== src/Pipe.antt =====
-- pipe.c: a ring of 512 bytes between a writer and a reader.
-- Each of `pipewrite` and `piperead` runs under the pipe's lock up to its return or to a `sleep`,
-- which releases the lock: one call of `pipewrite` or `piperead` here is such a stretch, and a
-- sleeper's next stretch is a call with what it has left to do.
pub mod Window
pub mod Refine
pub mod Ends
pub mod Flow
pub mod Stream
mod Tests
use os_lab.Base.{
  ℕ, zero, suc, ◌+◌, ◌%◌, ◌^◌, Bool, true, false, not, ◌&&◌, ◌||◌, Option, none, some, List, [],
  ◌∷◌, ◌==◌, if◌then◌else◌, get_or, set,
}

abbrev pub pipesize : ℕ
pipesize = 512

pub record Pipe : Type 0 where
  pub buf : List ℕ  -- `data`
  pub nread : ℕ  -- uint
  pub nwrite : ℕ  -- uint
  pub readopen : Bool
  pub writeopen : Bool

-- What a process may sleep on: the address of `nread` or of `nwrite`.
pub data Chan : Type 0 where
  nread_chan nwrite_chan : Chan

abbrev pub uint_add : ℕ → ℕ → ℕ
uint_add a b = (a + b) % 2 ^ 32

-- The fields that `pipealloc` sets in its new page, whose `data` keeps what the page held.
unfoldable pub new_pipe : List ℕ → Pipe
new_pipe page = record { buf = page; nread = 0; nwrite = 0; readopen = true; writeopen = true }

-- The pipe, or `none` where its page is freed, and who is woken.
unfoldable pub pipeclose : Pipe → Bool → Option Pipe × Chan
pipeclose p writable =
    let q = if writable then record p { writeopen = false } else record p { readopen = false } in
    let woken = if writable then nread_chan else nwrite_chan in
    (if not q.readopen && not q.writeopen then none else some q, woken)

-- How a stretch of `pipewrite` ends: -1, a `sleep` with bytes left, or `n`.
pub data WriteEnd : Type 0 where
  write_failed : WriteEnd
  write_asleep : List ℕ → WriteEnd
  written : WriteEnd

unfoldable pub full : Pipe → Bool
full p = p.nwrite == uint_add p.nread pipesize

-- `p->data[p->nwrite++ % PIPESIZE] = x;`
unfoldable pub put : Pipe → ℕ → Pipe
put p x = record p { buf = set p.buf (p.nwrite % pipesize) x; nwrite = uint_add p.nwrite 1 }

-- The loop; the list is what is left of `addr[i..n)`. Both its `sleep` and its end wake `nread`.
unfoldable pub pipewrite : Pipe → List ℕ → Bool → Pipe × WriteEnd × List Chan
unfolding full put
pipewrite p [] killed = (p, written, nread_chan ∷ [])
pipewrite p (x ∷ xs) killed =
    let rest = pipewrite (put p x) xs killed in
    if full p
    then (if not p.readopen || killed
        then (p, write_failed, [])
        else (p, write_asleep (x ∷ xs), nread_chan ∷ []))
    else rest

-- How a stretch of `piperead` ends: -1, a `sleep`, or the bytes that it stored in `addr`.
pub data ReadEnd : Type 0 where
  read_failed read_asleep : ReadEnd
  read_bytes : List ℕ → ReadEnd

-- `addr[i] = p->data[p->nread++ % PIPESIZE]`, until the pipe is empty or `n` bytes are read.
unfoldable pub copy_out : Pipe → ℕ → Pipe × List ℕ
copy_out p zero = (p, [])
copy_out p (suc n) =
    let rest = copy_out (record p { nread = uint_add p.nread 1 }) n in
    if p.nread == p.nwrite then (p, []) else (rest.0, get_or p.buf (p.nread % pipesize) 0 ∷ rest.1)

unfoldable pub piperead : Pipe → ℕ → Bool → Pipe × ReadEnd × List Chan
unfolding copy_out
piperead p n killed =
    if p.nread == p.nwrite && p.writeopen
    then (if killed then (p, read_failed, []) else (p, read_asleep, []))
    else (let out = copy_out p n in (out.0, read_bytes out.1, nwrite_chan ∷ []))
