-- ===== src/Pipe/Tests.antt =====
-- pipe.c at concrete pipes.
use os_lab.Base.{
  ℕ, ◌-◌, ◌^◌, ◌≤◌, ◌≡◌, refl, true, false, List, [], ◌∷◌, ◌++◌, arith, length, replicate,
}
use os_lab.Pipe.{
  Pipe, pipesize, write_failed, read_asleep, read_bytes, pipewrite, piperead, new_pipe,
}
use os_lab.Pipe.Window.{contents, IsValid}
use os_lab.Pipe.Refine.{pipewrite_refines, piperead_refines, fifo_write, fifo_read, fifo}
use os_lab.Pipe.Ends.{System, write, read, Reach, here, next, after_write, after_read}
use os_lab.Pipe.Stream.{start, stream_kept, killed_writer_wakes_none}

abbrev page : List ℕ
page = replicate 512 7

-- Both counters are about to wrap, and two bytes are held.
abbrev wrapping : Pipe
wrapping = record { buf = page; nread = 2 ^ 32 - 1; nwrite = 1; readopen = true; writeopen = true }

page-length : length page ≡ pipesize
page-length = refl

wrapping-IsValid : IsValid wrapping
wrapping-IsValid = record {
  room = refl;
  read_fits = omega arith;
  write_fits = omega arith;
  bounded = omega arith;
}

reads_across_the_wrap : (piperead wrapping 5 false).1 ≡ read_bytes (7 ∷ 7 ∷ [])
unfolding piperead
reads_across_the_wrap = refl

reader_sleeps : (piperead (new_pipe page) 5 false).1 ≡ read_asleep
unfolding piperead new_pipe
reader_sleeps = refl

-- Two bytes go in, one comes out.
abbrev two_in : System
two_in = after_write (start page) (5 ∷ 6 ∷ []) false

one_out : Reach (start page) (after_read two_in 1 false)
unfolding pipewrite new_pipe
one_out = next (next here (write (5 ∷ 6 ∷ []) refl)) (read 1 false refl)

pipewrite_refines_example :
    ((
      fifo (pipewrite wrapping (8 ∷ []) false).0,
      (pipewrite wrapping (8 ∷ []) false).1,
      (pipewrite wrapping (8 ∷ []) false).2,
    )
      ≡ fifo_write (fifo wrapping) (8 ∷ []) false)
    × IsValid (pipewrite wrapping (8 ∷ []) false).0
pipewrite_refines_example = pipewrite_refines wrapping (8 ∷ []) false wrapping-IsValid

piperead_refines_example :
    ((
      fifo (piperead wrapping 1 false).0,
      (piperead wrapping 1 false).1,
      (piperead wrapping 1 false).2,
    )
      ≡ fifo_read (fifo wrapping) 1 false)
    × IsValid (piperead wrapping 1 false).0
piperead_refines_example = piperead_refines wrapping 1 false wrapping-IsValid

stream_kept_example :
    ((after_read two_in 1 false).sent
      ≡ (after_read two_in 1 false).got ++ contents (after_read two_in 1 false).pipe)
    × (length (contents (after_read two_in 1 false).pipe) ≤ pipesize)
stream_kept_example = stream_kept page page-length one_out

abbrev empty_pipe : Pipe
empty_pipe = record wrapping { nread = 3; nwrite = 3 }

abbrev long_text : List ℕ
long_text = replicate 600 1

killed_writer_wakes_none_example :
    let r = pipewrite empty_pipe long_text true in
    (length (contents r.0) ≡ pipesize) × (r.1 ≡ write_failed) × (r.2 ≡ [])
killed_writer_wakes_none_example =
    killed_writer_wakes_none empty_pipe long_text
      (record {
        room = refl;
        read_fits = omega arith;
        write_fits = omega arith;
        bounded = omega arith;
      })
      refl (omega arith)
