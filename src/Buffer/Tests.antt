-- ===== src/Buffer/Tests.antt =====
-- Tests of the buffer, and its theorems at concrete inputs.
use epoll_server.Base.{◌+◌, ◌≤◌, ◌≡◌, refl, List, [], ◌∷◌, arith, length}
use epoll_server.Buffer.{Buffer, append, retrieve, readable_bytes, ensure_writable_bytes}
use epoll_server.Buffer.Contents.{
  IsValid, Op, append_op, retrieve_op, contents, run, apply, queue_run, run_refines,
}
use epoll_server.Buffer.Bounds.{FitsInt, int_max, length-buffer-append, append-retrieve-FitsInt}

-- Four bytes of memory: one retrieved, two unread, one free.
abbrev part_read : Buffer
part_read = record { buffer = 1 ∷ 2 ∷ 3 ∷ 0 ∷ []; read_index = 1; write_index = 3 }

abbrev calls : List Op
calls = append_op (7 ∷ 8 ∷ []) ∷ retrieve_op 3 ∷ append_op (9 ∷ []) ∷ []

part_read-IsValid : IsValid part_read
part_read-IsValid = omega arith

contents-part_read : contents part_read ≡ 2 ∷ 3 ∷ []
unfolding contents
contents-part_read = refl

-- The append grows the vector by one; the retrieve leaves one byte.
run-part_read :
    run part_read calls
    ≡ record { buffer = 1 ∷ 2 ∷ 3 ∷ 7 ∷ 8 ∷ 9 ∷ []; read_index = 4; write_index = 6 }
unfolding run apply append retrieve ensure_writable_bytes
run-part_read = refl

run_refines_example : IsValid (run part_read calls) × (contents (run part_read calls) ≡ 8 ∷ 9 ∷ [])
unfolding contents queue_run
run_refines_example = run_refines part_read calls part_read-IsValid

grown_part_read : length (append part_read (7 ∷ 8 ∷ [])).buffer ≡ 5
grown_part_read = length-buffer-append part_read (7 ∷ 8 ∷ []) part_read-IsValid

append-retrieve-FitsInt_example :
    FitsInt (append part_read (7 ∷ 8 ∷ [])) × FitsInt (retrieve part_read 2) × (2 + 1 ≤ int_max)
unfolding readable_bytes
append-retrieve-FitsInt_example =
    append-retrieve-FitsInt part_read (7 ∷ 8 ∷ []) 2 part_read-IsValid (omega arith) (omega arith)
      (omega arith)
