-- ===== src/Linc/Faults.antt =====
-- linc2/src/linc-connection.c: what goes wrong where the socket takes a part of a message.
use orbit.Base.{
  ℕ, zero, suc, ◌+◌, ◌^◌, ◌<◌, ◌≡◌, refl, ap, ◌∙◌, Bool, true, false, none, some, List, [], ◌∷◌,
  ◌++◌, leb, length, drop, take, arith, length-append, append-nil, append_assoc, take-length,
}
use orbit.Linc.Connection.{
  connected, Connection, Vecs, bytes, Io, took, written, queued_data, write_data, write_data_T,
  queue_signal, front_written, flush_queue, flush_write_queue, taken, Attempt, Mode, attempted,
  continue_write, writev_now, writev,
}

take-front : (xs ys : List ℕ) → take (length xs) (xs ++ ys) ≡ xs
take-front [] ys = refl
take-front (x ∷ xs) ys = ap (λ t. x ∷ t) (take-front xs ys)

drop-front : (xs ys : List ℕ) → drop (length xs) (xs ++ ys) ≡ ys
drop-front [] ys = refl
drop-front (x ∷ xs) ys = drop-front xs ys

take_nil : (n : ℕ) → take {A = List ℕ} n [] ≡ []
take_nil zero = refl
take_nil (suc n) = refl

module _ (iov_max : ℕ) where
  offered : (v : List ℕ) → bytes (take (suc iov_max) (v ∷ [])) ≡ v
  offered v = ap (λ q. v ++ bytes q) (take_nil iov_max) ∙ append-nil v

  -- The socket takes the first part of a vector, and then no more.
  write_part :
      (x : ℕ) (xs : List ℕ) (y : ℕ) (ys : List ℕ)
      → write_data (suc iov_max) true (took (length xs) ∷ []) ((x ∷ (xs ++ y ∷ ys)) ∷ []) 0
        ≡ record { status = queued_data; left = (y ∷ ys) ∷ []; sent = x ∷ xs }
  unfolding write_data
  write_part x xs y ys =
      let v = x ∷ (xs ++ y ∷ ys) in
      let len = length-append xs (y ∷ ys) in
      let n : taken (suc iov_max) (length xs) (v ∷ []) ≡ suc (length xs) =
        ground (arith, len, ap length (offered v)) in
      let part : leb (length v) (suc (length xs)) ≡ false = ground (arith, len) in
      rw
        (
          n,
          part,
          append-nil (xs ++ y ∷ ys),
          take-front xs (y ∷ ys),
          drop-front xs (y ∷ ys),
          append-nil xs,
        )
        refl

  -- It takes a vector as a whole.
  write_whole :
      (y : ℕ) (ys : List ℕ)
      → write_data (suc iov_max) true (took (length ys) ∷ []) ((y ∷ ys) ∷ []) 0
        ≡ record { status = written (0 + suc (length ys)); left = []; sent = y ∷ ys }
  unfolding write_data
  write_whole y ys =
      let v = y ∷ ys in
      let n : taken (suc iov_max) (length ys) (v ∷ []) ≡ suc (length ys) =
        ground (arith, ap length (offered v)) in
      let all : leb (length v) (suc (length ys)) ≡ true = ground arith in
      rw (n, all, append-nil ys, take-length (length ys) ys refl, append-nil ys) refl

-- A connection that is up, on a socket that does not block and without a limit.
abbrev pub up_with : List ℕ → List Vecs → ℕ → Bool → Connection
up_with wire queue size out = record {
  status = connected;
  nonblocking = true;
  queue = queue;
  write_queue_bytes = size;
  max_buffer_bytes = 0;
  poll_out = out;
  wire = wire;
}

-- Where the socket takes the first part of the only entry of the queue, and the rest at the next
-- turn, everything is on the wire and the queue is empty, but `write_queue_bytes` still counts the
-- first part.
pub write_queue_bytes-drift :
    (iov_max : ℕ) (wire : List ℕ) (x : ℕ) (xs : List ℕ) (y : ℕ) (ys : List ℕ)
    → length ((x ∷ xs) ++ (y ∷ ys)) < 2 ^ 64
    → (let all = (x ∷ xs) ++ (y ∷ ys) in
        let cnx = up_with wire ((all ∷ []) ∷ []) (length all) true in
        let once = flush_write_queue (suc iov_max) (took (length xs) ∷ []) cnx in
        let twice = flush_write_queue (suc iov_max) (took (length ys) ∷ []) once in
        (twice.queue ≡ [])
        × (twice.wire ≡ wire ++ all)
        × (twice.write_queue_bytes ≡ length (x ∷ xs)))
unfolding flush_queue write_data_T front_written queue_signal
write_queue_bytes-drift iov_max wire x xs y ys small =
    let len = length-append xs (y ∷ ys) in
    let first = write_part iov_max x xs y ys in
    rw (first) (
      rw (write_whole iov_max y ys)
        (refl, append_assoc wire (x ∷ xs) (y ∷ ys), omega (arith, len, small)))

-- A program without threads whose writes block: the main loop runs before the next turn.
abbrev pub blocking : ℕ → Mode
blocking iov_max = record {
  iov_max = suc iov_max;
  thread_safe = false;
  block = true;
  wait_connected = λ c. c;
  handle_input = λ c. c;
}

-- A handler that the main loop calls, and that writes on the connection itself.
abbrev pub writing : Mode → List Io → Vecs → Connection → Connection
writing m rs vecs c = elim (writev m (record { results = rs; iteration = λ d. d } ∷ []) c vecs) [
  | some (t, c') ↦ c'
  | none ↦ c
]

module _ (iov_max : ℕ) (size : ℕ) where
  turn_part :
      (wire : List ℕ) (out : Bool) (x : ℕ) (xs : List ℕ) (y : ℕ) (ys : List ℕ)
      (f : Connection → Connection) (more : List Attempt)
      → continue_write
          (blocking iov_max)
          (record { results = took (length xs) ∷ []; iteration = f } ∷ more)
          (up_with wire [] size out)
          ((x ∷ (xs ++ y ∷ ys)) ∷ [])
        ≡ continue_write
            (blocking iov_max)
            more
            (f (up_with (wire ++ x ∷ xs) [] size true))
            ((y ∷ ys) ∷ [])
  unfolding continue_write attempted write_data_T
  turn_part wire out x xs y ys f more = rw (write_part iov_max x xs y ys) refl

  turn_whole :
      (wire : List ℕ) (out : Bool) (y : ℕ) (ys : List ℕ) (f : Connection → Connection)
      (more : List Attempt)
      → continue_write
          (blocking iov_max)
          (record { results = took (length ys) ∷ []; iteration = f } ∷ more)
          (up_with wire [] size out)
          ((y ∷ ys) ∷ [])
        ≡ some (written 0, up_with (wire ++ y ∷ ys) [] size out)
  unfolding continue_write attempted write_data_T
  turn_whole wire out y ys f more = rw (write_whole iov_max y ys) refl

  writing_lem :
      (wire : List ℕ) (out : Bool) (z : ℕ) (zs : List ℕ)
      → writing
          (blocking iov_max)
          (took (length zs) ∷ [])
          ((z ∷ zs) ∷ [])
          (up_with wire [] size out)
        ≡ up_with (wire ++ z ∷ zs) [] size out
  unfolding writev writev_now
  writing_lem wire out z zs =
      ap (λ r. elim r [ some (t, c') ↦ c' | none ↦ up_with wire [] size out ])
        (turn_whole wire out z zs (λ d. d) [])

-- In a program without threads whose writes block, a write of which the socket takes a first part
-- runs the main loop before it goes on; what a handler writes on the same connection then lands on
-- the wire between the two parts.
pub writev-interleaved :
    (iov_max : ℕ) (wire : List ℕ) (x : ℕ) (xs : List ℕ) (y : ℕ) (ys : List ℕ) (z : ℕ) (zs : List ℕ)
    → (let m = blocking iov_max in
        let inner = writing m (took (length zs) ∷ []) ((z ∷ zs) ∷ []) in
        let turns : List Attempt =
          record { results = took (length xs) ∷ []; iteration = inner }
          ∷ record { results = took (length ys) ∷ []; iteration = λ d. d }
          ∷ [] in
        writev m turns (up_with wire [] 0 false) (((x ∷ xs) ++ (y ∷ ys)) ∷ [])
        ≡ some (written 0, up_with (((wire ++ (x ∷ xs)) ++ (z ∷ zs)) ++ (y ∷ ys)) [] 0 true))
unfolding writev writev_now
writev-interleaved iov_max wire x xs y ys z zs =
    let inner = writing (blocking iov_max) (took (length zs) ∷ []) ((z ∷ zs) ∷ []) in
    let last : List Attempt = record { results = took (length ys) ∷ []; iteration = λ d. d } ∷ [] in
    turn_part iov_max 0 wire false x xs y ys inner last
    ∙ ap (λ c. continue_write (blocking iov_max) last c ((y ∷ ys) ∷ []))
        (writing_lem iov_max 0 (wire ++ x ∷ xs) true z zs)
    ∙ turn_whole iov_max 0 ((wire ++ x ∷ xs) ++ z ∷ zs) true y ys (λ d. d) []
