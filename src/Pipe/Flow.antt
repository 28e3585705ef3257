-- ===== src/Pipe/Flow.antt =====
-- What every stretch of the processes at a pipe keeps: the queue, the sleepers and the history.
use os_lab.Base.{
  ℕ, ◌-◌, ◌≤◌, ◌≡◌, sym, subst, Bool, true, false, not, ◌&&◌, ◌||◌, some, List, [], ◌++◌,
  append-nil, append_assoc, arith, length, take, drop, length-append, take-append-drop, length-take,
  length-drop, drop-nil,
}
use os_lab.Pipe.{Pipe, pipesize, pipeclose}
use os_lab.Pipe.Window.{contents, IsValid}
use os_lab.Pipe.Refine.{pipewrite_refines, piperead_refines, fifo_write, fifo_read, fifo, Fifo}
use os_lab.Pipe.Ends.{
  System, returned, after_write, after_read, wakes_readers, wakes_writers, waits_write, waits_read,
  Step, write, read, close_write, close_read,
}

-- What holds of the queue, the sleepers and the history.
pub record Flow (q : Fifo) (readers writers : Bool) (sent got : List ℕ) : Type 0 where
  pub stream : sent ≡ got ++ q.bytes
  pub bounded : length q.bytes ≤ pipesize
  pub reader_waits : readers ≡ true → (q.bytes ≡ []) × (q.writeopen ≡ true) × (q.readopen ≡ true)
  pub writer_waits :
      writers ≡ true → (length q.bytes ≡ pipesize) × (q.writeopen ≡ true) × (q.readopen ≡ true)

pub record Inv (s : System) : Type 0 where
  pub valid : IsValid s.pipe
  pub flow : Flow (fifo s.pipe) s.readers s.writers s.sent s.got

module _ (q : Fifo) (readers writers : Bool) (sent got : List ℕ)
    (v : Flow q readers writers sent got) where
  abbrev room : ℕ
  room = pipesize - length q.bytes

  write-Flow :
      (xs : List ℕ)
      → q.writeopen ≡ true
      → let r = fifo_write q xs false in
        Flow r.0
          (readers && not (wakes_readers r.2))
          (writers && not (wakes_writers r.2) || waits_write r.1)
          (sent ++ take room xs)
          got
  unfolding fifo_write
  write-Flow xs w = record {
    stream = ground (arith, v.stream, append_assoc got q.bytes (take room xs));
    bounded = ground (arith, v.bounded, length-append q.bytes (take room xs), length-take room xs);
    reader_waits = λ h. ground (arith, v.reader_waits);
    writer_waits = λ h. ground (
      arith,
      v.writer_waits,
      v.bounded,
      length-append q.bytes (take room xs),
      length-take room xs,
    );
  }

  read-Flow :
      (n : ℕ) (killed : Bool)
      → q.readopen ≡ true
      → let r = fifo_read q n killed in
        Flow r.0
          (readers && not (wakes_readers r.2) || waits_read r.1)
          (writers && not (wakes_writers r.2))
          sent
          (got ++ returned r.1)
  unfolding fifo_read
  read-Flow n killed o = record {
    stream = ground (
      arith,
      v.stream,
      append-nil got,
      append_assoc got (take n q.bytes) (drop n q.bytes),
      take-append-drop n q.bytes,
    );
    bounded = ground (arith, v.bounded, length-drop n q.bytes);
    reader_waits = λ h. ground (arith, v.reader_waits, drop-nil ℕ n);
    writer_waits = λ h. ground (arith, v.writer_waits);
  }

write-Inv :
    (s : System) (xs : List ℕ) → s.pipe.writeopen ≡ true → Inv s → Inv (after_write s xs false)
write-Inv s xs w v =
    let refined = pipewrite_refines s.pipe xs false v.valid in
    record {
      valid = refined.1;
      flow =
          subst
            (λ r.
              Flow r.0 (s.readers && not (wakes_readers r.2))
                (s.writers && not (wakes_writers r.2) || waits_write r.1)
                (s.sent ++ take (pipesize - length (contents s.pipe)) xs) s.got)
            (sym refined.0) (write-Flow (fifo s.pipe) s.readers s.writers s.sent s.got v.flow xs w);
    }

read-Inv :
    (s : System) (n : ℕ) (killed : Bool)
    → s.pipe.readopen ≡ true
    → Inv s
    → Inv (after_read s n killed)
read-Inv s n killed o v =
    let refined = piperead_refines s.pipe n killed v.valid in
    record {
      valid = refined.1;
      flow =
          subst
            (λ r.
              Flow r.0 (s.readers && not (wakes_readers r.2) || waits_read r.1)
                (s.writers && not (wakes_writers r.2)) s.sent (s.got ++ returned r.1))
            (sym refined.0)
            (read-Flow (fifo s.pipe) s.readers s.writers s.sent s.got v.flow n killed o);
    }

close_write_eq :
    (p : Pipe) {q : Pipe} → (pipeclose p true).0 ≡ some q → record p { writeopen = false } ≡ q
unfolding pipeclose
close_write_eq p e = ground arith

close_read_eq :
    (p : Pipe) {q : Pipe} → (pipeclose p false).0 ≡ some q → record p { readopen = false } ≡ q
unfolding pipeclose
close_read_eq p e = ground arith

pub Step-Inv : {s t : System} → Step s t → Inv s → Inv t
Step-Inv {s} (write xs o) v = write-Inv s xs o v
Step-Inv {s} (read n killed o) v = read-Inv s n killed o v
Step-Inv {s} (close_write quiet e) v =
    subst (λ q. Inv (record s { pipe = q; readers = false })) (close_write_eq s.pipe e)
      (record {
        valid = ground arith;
        flow = record {
          stream = v.flow.stream;
          bounded = v.flow.bounded;
          reader_waits = λ h. cc;
          writer_waits = λ h. cc;
        };
      })
Step-Inv {s} (close_read quiet e) v =
    subst (λ q. Inv (record s { pipe = q; writers = false })) (close_read_eq s.pipe e)
      (record {
        valid = ground arith;
        flow = record {
          stream = v.flow.stream;
          bounded = v.flow.bounded;
          reader_waits = λ h. cc;
          writer_waits = λ h. cc;
        };
      })
