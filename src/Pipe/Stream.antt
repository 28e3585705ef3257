-- ===== src/Pipe/Stream.antt =====
-- Processes at the two ends of a pipe, in any order: no byte is lost, doubled or reordered, and no
-- sleeper is left asleep.
use os_lab.Base.{
  ℕ, ◌-◌, ◌≤◌, ◌<◌, ◌≡◌, refl, sym, ap, subst, Bool, true, false, not, ◌||◌, List, [], ◌∷◌, ◌++◌,
  arith, leb, if◌then◌else◌, length, take, drop, length-append, length-take,
}
use os_lab.Pipe.{
  Pipe, pipesize, Chan, nread_chan, WriteEnd, write_failed, write_asleep, pipewrite, new_pipe,
}
use os_lab.Pipe.Window.{contents, IsValid}
use os_lab.Pipe.Refine.{pipewrite_refines, fifo_write, fifo, Fifo}
use os_lab.Pipe.Flow.{Inv, Step-Inv}
use os_lab.Pipe.Ends.{System, Reach, here, next}

-- A pipe that `pipealloc` has just made.
abbrev pub start : List ℕ → System
start page = record { pipe = new_pipe page; readers = false; writers = false; sent = []; got = [] }

start-Inv : (page : List ℕ) → length page ≡ pipesize → Inv (start page)
unfolding new_pipe
start-Inv page h = record {
  valid = omega arith;
  flow = record {
    stream = refl;
    bounded = omega arith;
    reader_waits = λ e. cc;
    writer_waits = λ e. cc;
  };
}

Reach-Inv : {s t : System} → Inv s → Reach s t → Inv t
Reach-Inv v here = v
Reach-Inv v (next r st) = Step-Inv st (Reach-Inv v r)

-- Whatever stretches of pipewrite by processes that are not killed, of piperead and of pipeclose on
-- one end follow one another on a new pipe, the bytes that went in are, in order, those that
-- piperead returned followed by those that the pipe holds, of which there are at most 512.
pub stream_kept :
    (page : List ℕ) {s : System}
    → length page ≡ pipesize
    → Reach (start page) s
    → (s.sent ≡ s.got ++ contents s.pipe) × (length (contents s.pipe) ≤ pipesize)
stream_kept page h r = let v = (Reach-Inv (start-Inv page h) r).flow in (v.stream, v.bounded)

ltb-leb : (a b : ℕ) → b < a → leb a b ≡ false
ltb-leb a b h = ground arith

or-true : (b : Bool) → (b || true) ≡ true
or-true true = refl
or-true false = refl

fifo_write-stranded :
    (q : Fifo) (xs : List ℕ)
    → q.bytes ≡ []
    → pipesize < length xs
    → let r = fifo_write q xs true in
      (length r.0.bytes ≡ pipesize) × (r.1 ≡ write_failed) × (r.2 ≡ [])
unfolding fifo_write
fifo_write-stranded q xs e h =
    let empty : length q.bytes ≡ 0 = ap length e in
    rw (ltb-leb (length xs) (pipesize - length q.bytes) (omega arith)) (
      stuck (not q.readopen || true) (or-true (not q.readopen)) (
        omega (
          arith,
          length-append q.bytes (take (pipesize - length q.bytes) xs),
          length-take (pipesize - length q.bytes) xs,
        )))
  where
    q' : Fifo
    q' = record q { bytes = q.bytes ++ take (pipesize - length q.bytes) xs }

    stuck :
        (b : Bool)
        → b ≡ true
        → length q'.bytes ≡ pipesize
        → let r : Fifo × WriteEnd × List Chan =
            if b
            then (q', write_failed, [])
            else (q', write_asleep (drop (pipesize - length q.bytes) xs), nread_chan ∷ []) in
          (length r.0.bytes ≡ pipesize) × (r.1 ≡ write_failed) × (r.2 ≡ [])
    stuck true t l = (l, refl, refl)
    stuck false t l = cc

-- A killed process that writes more than 512 bytes to an empty pipe fills it and returns -1 with no
-- wake-up, so that readers asleep on the pipe sleep on, with 512 bytes to read.
pub killed_writer_wakes_none :
    (p : Pipe) (xs : List ℕ)
    → IsValid p
    → contents p ≡ []
    → pipesize < length xs
    → let r = pipewrite p xs true in
      (length (contents r.0) ≡ pipesize) × (r.1 ≡ write_failed) × (r.2 ≡ [])
killed_writer_wakes_none p xs v e h =
    subst (λ r. (length r.0.bytes ≡ pipesize) × (r.1 ≡ write_failed) × (r.2 ≡ []))
      (sym (pipewrite_refines p xs true v).0) (fifo_write-stranded (fifo p) xs e h)
