-- ===== src/Linc/Tests.antt =====
-- linc2/src/linc-connection.c at concrete connections.
use orbit.Base.{◌≡◌, ◌≢◌, refl, true, false, some, List, [], ◌∷◌, ◌++◌, arith, ◌⊎◌}
use orbit.Linc.Connection.{
  connected, disconnected, Connection, took, written, fatal_error, queued_data, Attempt, Mode,
  writev, flush_write_queue, writev_now, continue_write, attempted, write_data_T, write_data,
  queue_flattened, queue_signal, Event, io_handler,
}
use orbit.Linc.Stream.{AllTrimmed, waiting, wrote, handled, Run, start, next, Run-Streams}
use orbit.Linc.Drain.{drain, drain-all}
use orbit.Linc.Faults.{up_with, blocking, writing, write_queue_bytes-drift, writev-interleaved}

abbrev threads : Mode
threads = record {
  iov_max = 16;
  thread_safe = true;
  block = false;
  wait_connected = λ c. c;
  handle_input = λ c. c;
}

abbrev fresh : Connection
fresh = up_with [] [] 0 false

-- Two of four bytes are taken at once, and the others when the socket is writable again.
abbrev turns : List Attempt
turns = record { results = took 1 ∷ []; iteration = λ c. c } ∷ []

abbrev half_written : Connection
half_written = up_with (1 ∷ 2 ∷ []) (((3 ∷ 4 ∷ []) ∷ []) ∷ []) 2 true

half :
    writev threads turns fresh ((1 ∷ 2 ∷ 3 ∷ []) ∷ (4 ∷ []) ∷ []) ≡ some (queued_data, half_written)
unfolding writev writev_now continue_write attempted write_data_T write_data queue_flattened
    queue_signal
half = refl

no_fatal : queued_data ≢ fatal_error
no_fatal e = cc

abbrev writable : Event
writable = record {
  condition = record { input = false; error = false; out = true };
  no_error = true;
  results = took 9 ∷ [];
}

abbrev flushed_on : Connection
flushed_on = io_handler threads writable half_written

half_written-Run : Run threads fresh (1 ∷ 2 ∷ 3 ∷ 4 ∷ []) flushed_on
half_written-Run =
    next fresh half_written flushed_on (1 ∷ 2 ∷ 3 ∷ 4 ∷ []) []
      (next fresh fresh half_written [] (1 ∷ 2 ∷ 3 ∷ 4 ∷ []) (start fresh) (
        wrote turns fresh ((1 ∷ 2 ∷ 3 ∷ []) ∷ (4 ∷ []) ∷ []) queued_data half_written (λ e. cc) half
          no_fatal))
      (handled writable half_written)

Run-Streams_example :
    (flushed_on.status ≡ disconnected)
    ⊎ ((flushed_on.wire ++ waiting flushed_on.queue ≡ 1 ∷ 2 ∷ 3 ∷ 4 ∷ [])
        × AllTrimmed flushed_on.queue)
Run-Streams_example =
    Run-Streams threads (1 ∷ 2 ∷ 3 ∷ 4 ∷ []) fresh flushed_on refl (λ acc c h. h) (λ acc c h. h)
      refl refl half_written-Run

drain-all_example :
    let c = drain 1 (0 ∷ 0 ∷ 0 ∷ []) half_written in
    (c.queue ≡ []) × (c.wire ≡ 1 ∷ 2 ∷ 3 ∷ 4 ∷ []) × (c.status ≡ connected)
drain-all_example =
    drain-all 0 (0 ∷ 0 ∷ 0 ∷ []) half_written (refl, refl, refl) (λ e. refl, tt) (omega arith)

write_queue_bytes-drift_example :
    let cnx = up_with [] (((1 ∷ 2 ∷ 3 ∷ []) ∷ []) ∷ []) 3 true in
    let once = flush_write_queue 16 (took 0 ∷ []) cnx in
    let twice = flush_write_queue 16 (took 1 ∷ []) once in
    (twice.queue ≡ []) × (twice.wire ≡ 1 ∷ 2 ∷ 3 ∷ []) × (twice.write_queue_bytes ≡ 1)
write_queue_bytes-drift_example = write_queue_bytes-drift 15 [] 1 [] 2 (3 ∷ []) (omega arith)

writev-interleaved_example :
    let inner = writing (blocking 15) (took 0 ∷ []) ((9 ∷ []) ∷ []) in
    let two : List Attempt =
      record { results = took 0 ∷ []; iteration = inner }
      ∷ record { results = took 1 ∷ []; iteration = λ d. d }
      ∷ [] in
    writev (blocking 15) two (up_with [] [] 0 false) ((1 ∷ 2 ∷ 3 ∷ []) ∷ [])
    ≡ some (written 0, up_with (1 ∷ 9 ∷ 2 ∷ 3 ∷ []) [] 0 true)
writev-interleaved_example = writev-interleaved 15 [] 1 [] 2 (3 ∷ []) 9 []
