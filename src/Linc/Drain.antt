-- ===== src/Linc/Drain.antt =====
-- linc2/src/linc-connection.c: a socket that is writable often enough gets everything that is queued.
use orbit.Base.{
  ℕ, suc, ◌+◌, ◌-◌, ◌<◌, ◌≤◌, ◌≡◌, refl, sym, ap, ◌∙◌, subst, true, List, [], ◌∷◌, ◌++◌, ◌==◌,
  length, arith, length-drop, length-append, append-nil, Bool-cases, inl, inr, ◌⊎◌,
}
use orbit.Linc.Connection.{
  connected, disconnected, Connection, Vecs, bytes, took, IoStatus, written, fatal_error,
  queued_data, write_data, write_data_T, queue_signal, has_watch, front_written, flush_queue,
  flush_write_queue, taken, advance, has_more,
}
use orbit.Linc.Writes.{bytes-advance}
use orbit.Linc.Stream.{waiting, AllTrimmed, Follows, flush_queue-Follows}

-- A call of `writev` with room for one vector that takes something.
write_data-progress :
    (iov_max n : ℕ) (vecs : Vecs)
    → (let r = write_data (suc iov_max) true (took n ∷ []) vecs 0 in
        ((k : ℕ) × (r.status ≡ written k))
        ⊎ ((r.status ≡ queued_data) × (length (bytes r.left) < length (bytes vecs))))
unfolding write_data
write_data-progress iov_max n [] = inl (0, refl)
write_data-progress iov_max n ([] ∷ vs) = inl (0, refl)
write_data-progress iov_max n ((b ∷ v) ∷ vs) =
    let vecs = (b ∷ v) ∷ vs in
    let k = taken (suc iov_max) n vecs in
    let some : 0 < k = ground arith in
    let shorter : length (bytes (advance k vecs)) < length (bytes vecs) =
      omega (arith, some, ap length (bytes-advance k vecs), length-drop k (bytes vecs)) in
    elim (Bool-cases (has_more (advance k vecs))) [
      | inl more ↦ rw (more) (inr (refl, shorter))
      | inr done ↦ rw (done) (inl (0 + k, refl))
    ]

-- How much there is to flush.
abbrev pub measure : List Vecs → ℕ
measure qs = length (waiting qs) + length qs

-- A connection that lasts: it is connected, and has no limit that could disconnect it.
abbrev pub IsLasting : Connection → Type 0
IsLasting cnx = (cnx.status ≡ connected) × (cnx.nonblocking ≡ true) × (cnx.max_buffer_bytes ≡ 0)

-- The socket is found writable again and again, and takes something each time.
abbrev pub drain : ℕ → List ℕ → Connection → Connection
drain iov_max [] cnx = cnx
drain iov_max (n ∷ ns) cnx = drain iov_max ns (flush_write_queue iov_max (took n ∷ []) cnx)

front_written-less :
    (cnx : Connection) (left qw : Vecs) (qs : List Vecs) (t : IoStatus)
    → IsLasting cnx
    → ((k : ℕ) × (t ≡ written k)) ⊎ ((t ≡ queued_data) × (length (bytes left) < length (bytes qw)))
    → (let c = front_written cnx left qs t in IsLasting c × (measure c.queue < measure (qw ∷ qs)))
unfolding front_written queue_signal
front_written-less cnx left qw qs (written n) (up, nb, free) h =
    let unlimited : (cnx.max_buffer_bytes == 0) ≡ true = ground arith in
    let watch : has_watch cnx.status ≡ true = rw (up) refl in
    let len = length-append (bytes qw) (waiting qs) in
    simp (unlimited, watch) ((up, nb, free), omega (arith, len))
front_written-less cnx left qw qs fatal_error lasting (inl (k, e)) = cc
front_written-less cnx left qw qs fatal_error lasting (inr (e, less)) = cc
front_written-less cnx left qw qs queued_data lasting (inl (k, e)) = cc
front_written-less cnx left qw qs queued_data (up, nb, free) (inr (e, less)) =
    let watch : has_watch cnx.status ≡ true = rw (up) refl in
    let len = length-append (bytes qw) (waiting qs) in
    let len_left = length-append (bytes left) (waiting qs) in
    simp (watch) ((up, nb, free), omega (arith, len, len_left, less))

flush_queue-less :
    (iov_max n : ℕ) (cnx : Connection) (qw : Vecs) (qs : List Vecs)
    → IsLasting cnx
    → (let c = flush_queue (suc iov_max) (took n ∷ []) cnx (qw ∷ qs) in
        IsLasting c × (measure c.queue < measure (qw ∷ qs)))
unfolding flush_queue write_data_T
flush_queue-less iov_max n cnx qw qs (up, nb, free) =
    let r = write_data_T (suc iov_max) cnx (took n ∷ []) qw in
    let same : write_data (suc iov_max) true (took n ∷ []) qw 0 ≡ r = rw (up, nb) refl in
    front_written-less (record cnx { wire = cnx.wire ++ r.sent }) r.left qw qs r.status
      (up, nb, free)
      (subst
        (λ z.
          ((k : ℕ) × (z.status ≡ written k))
          ⊎ ((z.status ≡ queued_data) × (length (bytes z.left) < length (bytes qw))))
        same (write_data-progress iov_max n qw))

-- A turn of the main loop, with any queue.
flush_less :
    (iov_max n : ℕ) (cnx : Connection) (q : List Vecs)
    → cnx.queue ≡ q
    → IsLasting cnx
    → (let c = flush_queue (suc iov_max) (took n ∷ []) cnx q in
        IsLasting c × (measure c.queue ≤ measure q - 1))
unfolding flush_queue
flush_less iov_max n cnx [] e (up, nb, free) =
    let watch : has_watch cnx.status ≡ true = rw (up) refl in
    let none : measure cnx.queue ≡ 0 = ap measure e in
    simp (watch) ((up, nb, free), omega (arith, none))
flush_less iov_max n cnx (qw ∷ qs) e lasting =
    let (kept, less) = flush_queue-less iov_max n cnx qw qs lasting in (kept, omega (arith, less))

measure_zero : (q : List Vecs) → measure q ≤ 0 → q ≡ []
measure_zero [] h = refl
measure_zero (qw ∷ qs) h = absurd (omega arith)

drain-empty :
    (iov_max : ℕ) (ns : List ℕ) (cnx : Connection)
    → IsLasting cnx
    → measure cnx.queue ≤ length ns
    → (drain (suc iov_max) ns cnx).queue ≡ []
drain-empty iov_max [] cnx lasting enough = measure_zero cnx.queue enough
drain-empty iov_max (n ∷ ns) cnx lasting enough =
    let (kept, less) = flush_less iov_max n cnx cnx.queue refl lasting in
    drain-empty iov_max ns (flush_write_queue (suc iov_max) (took n ∷ []) cnx) kept
      (omega (arith, less, enough))

drain-IsLasting :
    (iov_max : ℕ) (ns : List ℕ) (cnx : Connection)
    → IsLasting cnx
    → IsLasting (drain (suc iov_max) ns cnx)
drain-IsLasting iov_max [] cnx lasting = lasting
drain-IsLasting iov_max (n ∷ ns) cnx lasting =
    drain-IsLasting iov_max ns (flush_write_queue (suc iov_max) (took n ∷ []) cnx)
      (flush_less iov_max n cnx cnx.queue refl lasting).0

drain-Follows :
    (iov_max : ℕ) (ns : List ℕ) (acc : List ℕ) (cnx : Connection)
    → Follows acc cnx
    → Follows acc (drain iov_max ns cnx)
drain-Follows iov_max [] acc cnx h = h
drain-Follows iov_max (n ∷ ns) acc cnx h =
    drain-Follows iov_max ns acc (flush_write_queue iov_max (took n ∷ []) cnx)
      (flush_queue-Follows iov_max (took n ∷ []) acc cnx cnx.queue refl h)

not_lost : (cnx : Connection) → cnx.status ≡ connected → cnx.status ≡ disconnected → ⊥
not_lost cnx up lost = cc

-- On a connection that is up, does not block and has no limit, and whose queue has no entry with
-- an empty vector in front of bytes, as many turns with a writable socket as there are bytes and
-- entries in the queue, each of which takes one byte at least of what it is offered, empty the
-- queue: its bytes follow those already on the wire, in their order, and the connection is still
-- up.
pub drain-all :
    (iov_max : ℕ) (ns : List ℕ) (cnx : Connection)
    → IsLasting cnx
    → AllTrimmed cnx.queue
    → length (waiting cnx.queue) + length cnx.queue ≤ length ns
    → (let c = drain (suc iov_max) ns cnx in
        (c.queue ≡ []) × (c.wire ≡ cnx.wire ++ waiting cnx.queue) × (c.status ≡ connected))
drain-all iov_max ns cnx lasting trimmed enough =
    let c = drain (suc iov_max) ns cnx in
    let empty = drain-empty iov_max ns cnx lasting enough in
    let up = (drain-IsLasting iov_max ns cnx lasting).0 in
    (
      empty,
      elim (drain-Follows (suc iov_max) ns (cnx.wire ++ waiting cnx.queue) cnx
          (inr (refl, trimmed))) [
            | inl lost ↦ absurd (not_lost c up lost)
            | inr (stream, _) ↦
                sym (append-nil c.wire) ∙ ap (λ q. c.wire ++ waiting q) (sym empty) ∙ stream
          ],
      up,
    )
