-- ===== src/Linc/Stream.antt =====
-- linc2/src/linc-connection.c: a connection is a queue of bytes. What it accepts reaches the socket in
-- its order, once, and nothing else does, as long as the connection lasts.
use orbit.Base.{
  ℕ, ◌≡◌, ◌≢◌, refl, sym, ap, ◌∙◌, subst, Bool, true, false, not, Option, none, some, List, [], ◌∷◌,
  ◌++◌, leb, ◌==◌, ◌&&◌, ◌||◌, if◌then◌else◌, length, arith, append-nil, append_assoc, Bool-cases,
  inl, inr, ◌⊎◌,
}
use orbit.Linc.Connection.{
  Status, connecting, connected, disconnected, timeout, Connection, Vecs, bytes, Io, IoStatus,
  written, fatal_error, queued_data, write_data_T, queue_signal, poll, has_watch, is_nil,
  queue_flattened, flush_write_queue, front_written, flush_queue, Attempt, Mode, attempted,
  continue_write, writev_now, writev, Event, status_handled, io_handler, is_connected,
  state_changed, is_connecting, is_disconnected, grown, shrunk,
}
use orbit.Linc.Writes.{IsTrimmed, write_data-IsWhole, IsWhole}

-- What the queue still has to write.
abbrev pub waiting : List Vecs → List ℕ
waiting [] = []
waiting (qw ∷ qs) = bytes qw ++ waiting qs

abbrev pub AllTrimmed : List Vecs → Type 0
AllTrimmed [] = Unit
AllTrimmed (qw ∷ qs) = IsTrimmed qw × AllTrimmed qs

abbrev pub Streams : List ℕ → Connection → List Vecs → Type 0
Streams accepted cnx q =
    (cnx.status ≡ disconnected) ⊎ ((cnx.wire ++ waiting q ≡ accepted) × AllTrimmed q)

-- The bytes that a connection has accepted are those on the wire and those in the queue, unless it is
-- lost.
abbrev pub Follows : List ℕ → Connection → Type 0
Follows accepted cnx = Streams accepted cnx cnx.queue

either_way : {A : Type 0} (P : A → Type 0) (b : Bool) (x y : A) → P x → P y → P (if b then x else y)
either_way P true x y px py = px
either_way P false x y px py = py

waiting-append : (qs : List Vecs) (vs : Vecs) → waiting (qs ++ vs ∷ []) ≡ waiting qs ++ bytes vs
waiting-append [] vs = append-nil (bytes vs)
waiting-append (q ∷ qs) vs =
    ap (λ t. bytes q ++ t) (waiting-append qs vs)
    ∙ sym (append_assoc (bytes q) (waiting qs) (bytes vs))

AllTrimmed-append :
    (qs : List Vecs) (vs : Vecs) → AllTrimmed qs → IsTrimmed vs → AllTrimmed (qs ++ vs ∷ [])
AllTrimmed-append [] vs h t = (t, tt)
AllTrimmed-append (q ∷ qs) vs h t = (h.0, AllTrimmed-append qs vs h.1 t)

poll-Follows :
    (acc : List ℕ) (cnx : Connection) (out : Bool) → Follows acc cnx → Follows acc (poll cnx out)
poll-Follows acc cnx out h = elim (Bool-cases (has_watch cnx.status)) [
  | inl e ↦ rw (e) h
  | inr e ↦ rw (e) h
]

queue_signal-Follows :
    (acc : List ℕ) (cnx : Connection) (n : ℕ) → Follows acc cnx → Follows acc (queue_signal cnx n)
unfolding queue_signal
queue_signal-Follows acc cnx n h =
    elim (Bool-cases (not (cnx.max_buffer_bytes == 0) && leb cnx.max_buffer_bytes n)) [
      | inl e ↦ rw (e) (inl refl)
      | inr e ↦ rw (e) h
    ]

queued :
    (acc : List ℕ) (cnx : Connection) (vecs : Vecs)
    → Follows acc cnx
    → Follows (acc ++ bytes vecs) (record cnx { queue = cnx.queue ++ (bytes vecs ∷ []) ∷ [] })
queued acc cnx vecs (inl lost) = inl lost
queued acc cnx vecs (inr (stream, trimmed)) = inr (
  ap (λ t. cnx.wire ++ t)
        (waiting-append cnx.queue (bytes vecs ∷ [])
          ∙ ap (λ t. waiting cnx.queue ++ t) (append-nil (bytes vecs)))
      ∙ sym (append_assoc cnx.wire (waiting cnx.queue) (bytes vecs))
      ∙ ap (λ t. t ++ bytes vecs) stream,
  AllTrimmed-append cnx.queue (bytes vecs ∷ []) trimmed (λ e. refl),
)

queue_flattened-Follows :
    (acc : List ℕ) (cnx : Connection) (vecs : Vecs) (update : Bool)
    → Follows acc cnx
    → Follows (acc ++ bytes vecs) (queue_flattened cnx vecs update)
unfolding queue_flattened
queue_flattened-Follows acc cnx vecs update h =
    let longer = record cnx { queue = cnx.queue ++ (bytes vecs ∷ []) ∷ [] } in
    let size = grown cnx.write_queue_bytes (length (bytes vecs)) in
    let signalled = queue_signal-Follows (acc ++ bytes vecs) longer size (queued acc cnx vecs h) in
    elim (Bool-cases (update && is_nil cnx.queue)) [
      | inl e ↦ rw (e) (poll-Follows (acc ++ bytes vecs) (queue_signal longer size) true signalled)
      | inr e ↦ rw (e) signalled
    ]

pub write_data_T-IsWhole :
    (iov_max : ℕ) (cnx : Connection) (rs : List Io) (vecs : Vecs)
    → IsTrimmed vecs
    → IsWhole vecs 0 (write_data_T iov_max cnx rs vecs)
unfolding write_data_T
write_data_T-IsWhole iov_max cnx rs vecs h = go cnx.status refl
  where
    go : (t : Status) → cnx.status ≡ t → IsWhole vecs 0 (write_data_T iov_max cnx rs vecs)
    go connected e = rw (e) (write_data-IsWhole iov_max cnx.nonblocking rs vecs 0 h)
    go connecting e = rw (e) (refl, h, λ n e'. ground arith)
    go disconnected e = rw (e) (refl, h, λ n e'. ground arith)
    go timeout e = rw (e) (refl, h, λ n e'. ground arith)

-- A part of the front entry has gone to the wire.
moved :
    (wire sent left front rest : List ℕ)
    → sent ++ left ≡ front
    → (wire ++ sent) ++ (left ++ rest) ≡ wire ++ (front ++ rest)
moved wire sent left front rest e =
    append_assoc wire sent (left ++ rest)
    ∙ ap (λ t. wire ++ t) (sym (append_assoc sent left rest) ∙ ap (λ t. t ++ rest) e)

front_written-Follows :
    (acc : List ℕ) (cnx : Connection) (left : Vecs) (qs : List Vecs) (t : IoStatus)
    → ((n : ℕ) → t ≡ written n → bytes left ≡ [])
    → Streams acc cnx (left ∷ qs)
    → Follows acc (front_written cnx left qs t)
unfolding front_written
front_written-Follows acc cnx left qs (written n) empty h =
    let cnx1 = queue_signal (record cnx { queue = qs }) (shrunk cnx.write_queue_bytes n) in
    poll-Follows acc cnx1 (not (is_nil cnx1.queue)) (
      queue_signal-Follows acc (record cnx { queue = qs }) (shrunk cnx.write_queue_bytes n)
        (elim h [
          | inl lost ↦ inl lost
          | inr (stream, trimmed) ↦
              inr (ap (λ b. cnx.wire ++ (b ++ waiting qs)) (sym (empty n refl)) ∙ stream, trimmed.1)
        ]))
front_written-Follows acc cnx left qs fatal_error empty h = inl refl
front_written-Follows acc cnx left qs queued_data empty h =
    poll-Follows acc (record cnx { queue = left ∷ qs }) true h

write_data_T-lost :
    (iov_max : ℕ) (cnx : Connection) (rs : List Io) (vecs : Vecs)
    → cnx.status ≡ disconnected
    → (write_data_T iov_max cnx rs vecs).status ≡ fatal_error
unfolding write_data_T
write_data_T-lost iov_max cnx rs vecs e = rw (e) refl

written_lost : (n : ℕ) → fatal_error ≢ written n
written_lost n e = cc

pub flush_queue-Follows :
    (iov_max : ℕ) (rs : List Io) (acc : List ℕ) (cnx : Connection) (q : List Vecs)
    → cnx.queue ≡ q
    → Streams acc cnx q
    → Follows acc (flush_queue iov_max rs cnx q)
unfolding flush_queue
flush_queue-Follows iov_max rs acc cnx [] e h =
    poll-Follows acc cnx false (subst (Streams acc cnx) (sym e) h)
flush_queue-Follows iov_max rs acc cnx (qw ∷ qs) e (inl lost) =
    let r = write_data_T iov_max cnx rs qw in
    front_written-Follows acc (record cnx { wire = cnx.wire ++ r.sent }) r.left qs r.status
      (λ n s. absurd (written_lost n (sym (write_data_T-lost iov_max cnx rs qw lost) ∙ s)))
      (inl lost)
flush_queue-Follows iov_max rs acc cnx (qw ∷ qs) e (inr (stream, trimmed)) =
    let r = write_data_T iov_max cnx rs qw in
    let (whole, trim, ok) = write_data_T-IsWhole iov_max cnx rs qw trimmed.0 in
    front_written-Follows acc (record cnx { wire = cnx.wire ++ r.sent }) r.left qs r.status
      (λ n s. (ok n s).0)
      (inr (
        moved cnx.wire r.sent (bytes r.left) (bytes qw) (waiting qs) whole ∙ stream,
        (trim, trimmed.1),
      ))

is_nil_lem : (q : List Vecs) → is_nil q ≡ true → q ≡ []
is_nil_lem [] e = refl
is_nil_lem (x ∷ q) e = cc

-- What a call that does not report a fatal error has made of the connection.
abbrev Accepted : List ℕ → Option (IoStatus × Connection) → Type 0
Accepted acc none = Unit
Accepted acc (some (fatal_error, cnx)) = Unit
Accepted acc (some (written n, cnx)) = Follows acc cnx
Accepted acc (some (queued_data, cnx)) = Follows acc cnx

sent_on :
    (acc : List ℕ) (cnx : Connection) (sent : List ℕ)
    → cnx.queue ≡ []
    → Follows acc cnx
    → Follows (acc ++ sent) (record cnx { wire = cnx.wire ++ sent })
sent_on acc cnx sent e (inl lost) = inl lost
sent_on acc cnx sent e (inr (stream, trimmed)) =
    let flushed : cnx.wire ≡ acc =
      sym (append-nil cnx.wire) ∙ ap (λ q. cnx.wire ++ waiting q) (sym e) ∙ stream in
    inr (
      ap (λ q. (cnx.wire ++ sent) ++ waiting q) e
          ∙ append-nil (cnx.wire ++ sent)
          ∙ ap (λ w. w ++ sent) flushed,
      trimmed,
    )

module _ (m : Mode) (prompt : (m.thread_safe || not m.block) ≡ true) where
  attempted-Accepted :
      (acc : List ℕ) (cnx : Connection) (left : Vecs) (again : Option (IoStatus × Connection))
      (t : IoStatus)
      → ((n : ℕ) → t ≡ written n → bytes left ≡ [])
      → Follows acc cnx
      → Accepted (acc ++ bytes left) (attempted m cnx left again t)
  unfolding attempted
  attempted-Accepted acc cnx left again (written n) empty h =
      subst (λ b. Follows b cnx) (sym (ap (λ b. acc ++ b) (empty n refl) ∙ append-nil acc)) h
  attempted-Accepted acc cnx left again fatal_error empty h = tt
  attempted-Accepted acc cnx left again queued_data empty h = elim (Bool-cases m.thread_safe) [
    | inl safe ↦ rw (safe) (queue_flattened-Follows acc cnx left true h)
    | inr alone ↦
        let free : not m.block ≡ true = ground arith in
        rw (alone, free)
          (queue_flattened-Follows acc (poll cnx true) left false (poll-Follows acc cnx true h))
  ]

  continue_write-Accepted :
      (turns : List Attempt) (acc : List ℕ) (cnx : Connection) (vecs : Vecs)
      → IsTrimmed vecs
      → cnx.queue ≡ []
      → Follows acc cnx
      → Accepted (acc ++ bytes vecs) (continue_write m turns cnx vecs)
  unfolding continue_write
  continue_write-Accepted [] acc cnx vecs t e h = tt
  continue_write-Accepted (a ∷ more) acc cnx vecs t e h =
      let r = write_data_T m.iov_max cnx a.results vecs in
      let cnx1 = record cnx { wire = cnx.wire ++ r.sent } in
      let (whole, trim, ok) = write_data_T-IsWhole m.iov_max cnx a.results vecs t in
      subst (λ b. Accepted b (continue_write m (a ∷ more) cnx vecs))
        (append_assoc acc r.sent (bytes r.left) ∙ ap (λ b. acc ++ b) whole)
        (attempted-Accepted (acc ++ r.sent) cnx1 r.left _ r.status (λ n s. (ok n s).0)
          (sent_on acc cnx r.sent e h))

  writev_now-Accepted :
      (turns : List Attempt) (acc : List ℕ) (cnx : Connection) (vecs : Vecs)
      → IsTrimmed vecs
      → Follows acc cnx
      → Accepted (acc ++ bytes vecs) (writev_now m turns cnx vecs)
  unfolding writev_now
  writev_now-Accepted turns acc cnx vecs t h = elim (Bool-cases (is_disconnected cnx.status)) [
    | inl lost ↦ rw (lost) tt
    | inr up ↦ elim (Bool-cases (is_nil cnx.queue)) [
      | inl empty ↦
          rw (up, empty)
            (continue_write-Accepted turns acc cnx vecs t (is_nil_lem cnx.queue empty) h)
      | inr busy ↦ rw (up, busy) (queue_flattened-Follows acc cnx vecs false h)
    ]
  ]

  writev-Accepted :
      (turns : List Attempt) (acc : List ℕ) (cnx : Connection) (vecs : Vecs)
      → ((c : Connection) → Follows acc c → Follows acc (m.wait_connected c))
      → IsTrimmed vecs
      → Follows acc cnx
      → Accepted (acc ++ bytes vecs) (writev m turns cnx vecs)
  unfolding writev
  writev-Accepted turns acc cnx vecs waits t h = elim (Bool-cases m.thread_safe) [
    | inl safe ↦ elim (Bool-cases (is_connecting cnx.status)) [
      | inl early ↦ simp (safe, early) (queue_flattened-Follows acc cnx vecs true h)
      | inr ready ↦ simp (safe, ready) (writev_now-Accepted turns acc cnx vecs t h)
    ]
    | inr alone ↦ elim (Bool-cases cnx.nonblocking) [
      | inl wait ↦
          simp (alone, wait)
            (writev_now-Accepted turns acc (m.wait_connected cnx) vecs t (waits cnx h))
      | inr no_wait ↦ simp (alone, no_wait) (writev_now-Accepted turns acc cnx vecs t h)
    ]
  ]

connected-Follows :
    (acc : List ℕ) (cnx : Connection)
    → cnx.status ≢ disconnected
    → Follows acc cnx
    → Follows acc (state_changed cnx connected)
connected-Follows acc cnx up (inl lost) = absurd (up lost)
connected-Follows acc cnx up (inr stream) = inr stream

poll_up :
    (cnx : Connection) (out : Bool) → cnx.status ≡ connecting → (poll cnx out).status ≢ disconnected
poll_up cnx out s =
    either_way (λ (c : Connection). c.status ≢ disconnected) (has_watch cnx.status) _ _
      (still_up cnx.status s) (still_up cnx.status s)
  where
    still_up : (t : Status) → t ≡ connecting → t ≢ disconnected
    still_up t e lost = cc

status_handled-Follows :
    (iov_max : ℕ) (e : Event) (acc : List ℕ) (cnx : Connection) (t : Status)
    → cnx.status ≡ t
    → Follows acc cnx
    → Follows acc (status_handled iov_max e cnx t)
unfolding status_handled
status_handled-Follows iov_max e acc cnx connecting s h =
    let cnx1 = state_changed (poll cnx false) connected in
    let h1 : Follows acc cnx1 =
      connected-Follows acc (poll cnx false) (poll_up cnx false s) (poll-Follows acc cnx false h) in
    let h2 : Follows acc (flush_write_queue iov_max e.results cnx1) =
      flush_queue-Follows iov_max e.results acc cnx1 cnx1.queue refl h1 in
    either_way (Follows acc)
      (e.no_error && (e.condition.out && not e.condition.error && not e.condition.input)) _ _
      (either_way (Follows acc) (is_nil cnx1.queue) _ _ h1 h2) (inl refl)
status_handled-Follows iov_max e acc cnx connected s h = elim (Bool-cases e.condition.error) [
  | inl broken ↦ rw (broken) (inl refl)
  | inr fine ↦ rw (fine) h
]
status_handled-Follows iov_max e acc cnx disconnected s h = h
status_handled-Follows iov_max e acc cnx timeout s h = h

io_handler-Follows :
    (m : Mode) (e : Event) (acc : List ℕ) (cnx : Connection)
    → ((c : Connection) → Follows acc c → Follows acc (m.handle_input c))
    → Follows acc cnx
    → Follows acc (io_handler m e cnx)
unfolding io_handler
io_handler-Follows m e acc cnx reads h =
    either_way (Follows acc) (e.condition.error || e.condition.out) _ _
      (status_handled-Follows m.iov_max e acc cnx2 cnx2.status refl h2) h2
  where
    cnx1 : Connection
    cnx1 = if is_connected cnx.status && e.condition.input then m.handle_input cnx else cnx

    cnx2 : Connection
    cnx2 =
        if is_connected cnx1.status && e.condition.out
        then flush_write_queue m.iov_max e.results cnx1
        else cnx1

    h1 : Follows acc cnx1
    h1 = either_way (Follows acc) (is_connected cnx.status && e.condition.input) _ _ (reads cnx h) h

    h2 : Follows acc cnx2
    h2 =
        either_way (Follows acc) (is_connected cnx1.status && e.condition.out) _ _
          (flush_queue-Follows m.iov_max e.results acc cnx1 cnx1.queue refl h1) h1

-- The life of a connection, as calls of `writev` that the caller is not told have failed, and turns of
-- the main loop.
pub data Step (m : Mode) : Connection → List ℕ → Connection → Type 0 where
  wrote :
      (turns : List Attempt) (cnx : Connection) (vecs : Vecs) (t : IoStatus) (cnx' : Connection)
      → IsTrimmed vecs
      → writev m turns cnx vecs ≡ some (t, cnx')
      → t ≢ fatal_error
      → Step m cnx (bytes vecs) cnx'
  handled : (e : Event) (cnx : Connection) → Step m cnx [] (io_handler m e cnx)

pub data Run (m : Mode) : Connection → List ℕ → Connection → Type 0 where
  start : (cnx : Connection) → Run m cnx [] cnx
  next :
      (cnx cnx1 cnx2 : Connection) (xs ys : List ℕ)
      → Run m cnx xs cnx1
      → Step m cnx1 ys cnx2
      → Run m cnx (xs ++ ys) cnx2

reported :
    (acc : List ℕ) (t : IoStatus) (cnx : Connection)
    → t ≢ fatal_error
    → Accepted acc (some (t, cnx))
    → Follows acc cnx
reported acc (written n) cnx ok h = h
reported acc fatal_error cnx ok h = absurd (ok refl)
reported acc queued_data cnx ok h = h

module _ (m : Mode) (prompt : (m.thread_safe || not m.block) ≡ true)
    (waits : (acc : List ℕ) (c : Connection) → Follows acc c → Follows acc (m.wait_connected c))
    (reads : (acc : List ℕ) (c : Connection) → Follows acc c → Follows acc (m.handle_input c)) where
  Step-Follows :
      (acc ys : List ℕ) (cnx cnx' : Connection)
      → Follows acc cnx
      → Step m cnx ys cnx'
      → Follows (acc ++ ys) cnx'
  Step-Follows acc ys cnx cnx' h (wrote turns c vecs t c' trim result ok) =
      reported (acc ++ bytes vecs) t c' ok (
        subst (Accepted (acc ++ bytes vecs)) result
          (writev-Accepted m prompt turns acc c vecs (waits acc) trim h))
  Step-Follows acc ys cnx cnx' h (handled e c) =
      subst (λ b. Follows b (io_handler m e c)) (sym (append-nil acc))
        (io_handler-Follows m e acc c (reads acc) h)

  Run-Follows :
      (xs : List ℕ) (cnx cnx' : Connection) → Follows [] cnx → Run m cnx xs cnx' → Follows xs cnx'
  Run-Follows xs cnx cnx' h (start c) = h
  Run-Follows xs cnx cnx' h (next c c1 c2 ys zs before step) =
      Step-Follows ys zs c1 c2 (Run-Follows ys c c1 h before) step

-- A connection refines a queue of bytes: starting with nothing written and nothing queued, after
-- any sequence of writes that have not been reported to fail, none with an empty vector in front
-- of bytes, and of turns of the main loop, in a program whose writes do not wait and whose input
-- handlers and waits for the connection keep the property, the connection is lost, or the bytes
-- that the socket has taken and then those in the queue are exactly the bytes of the writes, in
-- their order.
pub Run-Streams :
    (m : Mode) (xs : List ℕ) (cnx cnx' : Connection)
    → (m.thread_safe || not m.block) ≡ true
    → ((acc : List ℕ) (c : Connection) → Follows acc c → Follows acc (m.wait_connected c))
    → ((acc : List ℕ) (c : Connection) → Follows acc c → Follows acc (m.handle_input c))
    → cnx.wire ≡ []
    → cnx.queue ≡ []
    → Run m cnx xs cnx'
    → (cnx'.status ≡ disconnected)
      ⊎ ((cnx'.wire ++ waiting cnx'.queue ≡ xs) × AllTrimmed cnx'.queue)
Run-Streams m xs cnx cnx' prompt waits reads fresh empty run =
    let held : cnx.wire ++ waiting cnx.queue ≡ [] = rw (fresh, empty) refl in
    let all : AllTrimmed cnx.queue = subst AllTrimmed (sym empty) tt in
    Run-Follows m prompt waits reads xs cnx cnx' (inr (held, all)) run
