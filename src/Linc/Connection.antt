-- ===== src/Linc/Connection.antt =====
-- linc2/src/linc-connection.c: what a connection writes, keeps queued, and gives up. Plain sockets, not
-- SSL or Winsock. The callbacks of signals, which run without the lock, leave the connection alone.
use orbit.Base.{
  ℕ, ◌+◌, ◌-◌, ◌%◌, ◌^◌, Bool, true, false, not, ◌&&◌, ◌||◌, Option, none, some, List, [], ◌∷◌,
  ◌++◌, leb, ltb, ◌==◌, if◌then◌else◌, length, drop, take,
}

-- `LinkConnectionStatus`
pub data Status : Type 0 where
  connecting connected disconnected timeout : Status

-- `struct iovec`s by the bytes that they span.
abbrev pub Vecs : Type 0
Vecs = List (List ℕ)

abbrev pub bytes : Vecs → List ℕ
bytes [] = []
bytes (v ∷ vs) = v ++ bytes vs

-- A connection: `wire` is what the socket has taken so far, `queue` are the vectors that each entry of
-- `write_queue` has left, and `poll_out` says whether the watch waits for G_IO_OUT.
pub record Connection : Type 0 where
  pub status : Status
  pub nonblocking : Bool
  pub queue : List Vecs
  pub write_queue_bytes : ℕ
  pub max_buffer_bytes : ℕ
  pub poll_out : Bool
  pub wire : List ℕ

-- What `writev` does in turn: it takes up to `n + 1` bytes of what it is offered, takes none, is
-- interrupted, or fails. Where a list of these ends, it answers EAGAIN.
pub data Io : Type 0 where
  took : ℕ → Io
  none_taken interrupted failed : Io

-- `LinkIOStatus`; `written` stands for the numbers of bytes from LINK_IO_OK up.
pub data IoStatus : Type 0 where
  written : ℕ → IoStatus
  fatal_error queued_data : IoStatus

-- The inner loop of `write_data_T`, with the lines behind it.
abbrev pub advance : ℕ → Vecs → Vecs
advance n [] = []
advance n (v ∷ vs) =
    let rest = advance (n - length v) vs in if leb (length v) n then rest else drop n v ∷ vs

abbrev pub min : ℕ → ℕ → ℕ
min a b = if ltb a b then a else b

-- The bytes that a call of `writev` with at most `iov_max` vectors takes.
abbrev pub taken : ℕ → ℕ → Vecs → ℕ
taken iov_max n vecs = min (n + 1) (length (bytes (take iov_max vecs)))

abbrev pub is_empty : List ℕ → Bool
is_empty [] = true
is_empty (b ∷ bs) = false

-- `(qw->nvecs > 0) && (qw->vecs->iov_len > 0)`
abbrev pub has_more : Vecs → Bool
has_more [] = false
has_more (v ∷ vs) = not (is_empty v)

-- What `write_data_T` returns, what it leaves in `qw`, and what the socket took.
pub record Written : Type 0 where
  pub status : IoStatus
  pub left : Vecs
  pub sent : List ℕ

abbrev pub after : List ℕ → Written → Written
after bs r = record r { sent = bs ++ r.sent }

-- The loop of `write_data_T` for a connection that is connected; `total` is `bytes_written`.
unfoldable pub write_data : ℕ → Bool → List Io → Vecs → ℕ → Written
write_data iov_max nonblocking [] vecs total = record {
  status =
      if not (has_more vecs)
      then written total
      else if nonblocking
      then queued_data
      else fatal_error;
  left = vecs;
  sent = [];
}
write_data iov_max nonblocking (interrupted ∷ rs) vecs total =
    let rest = write_data iov_max nonblocking rs vecs total in
    if has_more vecs then rest else record { status = written total; left = vecs; sent = [] }
write_data iov_max nonblocking (took n ∷ rs) vecs total =
    let k = taken iov_max n vecs in
    let rest = write_data iov_max nonblocking rs (advance k vecs) (total + k) in
    if has_more vecs
    then after (take k (bytes vecs)) rest
    else record { status = written total; left = vecs; sent = [] }
write_data iov_max nonblocking (r ∷ rs) vecs total = record {
  status = if has_more vecs then fatal_error else written total;
  left = vecs;
  sent = [];
}

-- `link_connection_state_changed_T_R (cnx, LINK_DISCONNECTED)`: the watch is removed, the socket closed
-- and the queue freed.
abbrev pub disconnect : Connection → Connection
disconnect cnx = record cnx { status = disconnected; queue = []; poll_out = false }

abbrev pub has_watch : Status → Bool
has_watch connecting = true
has_watch connected = true
has_watch _ = false

-- `link_watch_set_condition`, which does nothing without a watch.
abbrev pub poll : Connection → Bool → Connection
poll cnx out = if has_watch cnx.status then record cnx { poll_out = out } else cnx

-- `queue_signal_T_R`, behind the change of `write_queue_bytes`.
unfoldable pub queue_signal : Connection → ℕ → Connection
queue_signal cnx0 bytes_now =
    let cnx = record cnx0 { write_queue_bytes = bytes_now } in
    if not (cnx.max_buffer_bytes == 0) && leb cnx.max_buffer_bytes cnx.write_queue_bytes
    then disconnect cnx
    else cnx

-- `cnx->priv->write_queue_bytes += delta` for a `gulong`.
abbrev pub grown : ℕ → ℕ → ℕ
grown a delta = (a + delta) % 2 ^ 64

abbrev pub shrunk : ℕ → ℕ → ℕ
shrunk a delta = (a + (2 ^ 64 - delta)) % 2 ^ 64

abbrev pub is_nil {ℓ} : {A : Type ℓ} → List A → Bool
is_nil [] = true
is_nil (x ∷ xs) = false

-- `queue_flattened_T_R`. The command that sets the condition of the watch is carried out at once.
unfoldable pub queue_flattened : Connection → Vecs → Bool → Connection
queue_flattened cnx vecs update_poll =
    let flat = bytes vecs in
    let new_queue = is_nil cnx.queue in
    let cnx1 =
      queue_signal (record cnx { queue = cnx.queue ++ (flat ∷ []) ∷ [] })
        (grown cnx.write_queue_bytes (length flat)) in
    if update_poll && new_queue then poll cnx1 true else cnx1

-- `write_data_T`: `g_return_val_if_fail`, and the loop.
unfoldable pub write_data_T : ℕ → Connection → List Io → Vecs → Written
write_data_T iov_max cnx rs vecs = elim cnx.status [
  | connected ↦ write_data iov_max cnx.nonblocking rs vecs 0
  | _ ↦ record { status = fatal_error; left = vecs; sent = [] }
]

-- The branches of `link_connection_flush_write_queue_T_R`, where `left` is what is left of the front
-- entry and `qs` are the others.
unfoldable pub front_written : Connection → Vecs → List Vecs → IoStatus → Connection
front_written cnx left qs (written n) =
    let cnx1 = queue_signal (record cnx { queue = qs }) (shrunk cnx.write_queue_bytes n) in
    poll cnx1 (not (is_nil cnx1.queue))
front_written cnx left qs fatal_error = disconnect cnx
front_written cnx left qs queued_data = poll (record cnx { queue = left ∷ qs }) true

-- `link_connection_flush_write_queue_T_R` with its queue.
unfoldable pub flush_queue : ℕ → List Io → Connection → List Vecs → Connection
flush_queue iov_max rs cnx [] = poll cnx false
flush_queue iov_max rs cnx (qw ∷ qs) =
    let r = write_data_T iov_max cnx rs qw in
    front_written (record cnx { wire = cnx.wire ++ r.sent }) r.left qs r.status

-- `link_connection_flush_write_queue_T_R`
abbrev pub flush_write_queue : ℕ → List Io → Connection → Connection
flush_write_queue iov_max rs cnx = flush_queue iov_max rs cnx cnx.queue

-- One turn of the loop of `link_connection_writev`: what the socket does, and what the main loop makes
-- of the connection before the next turn.
pub record Attempt : Type 0 where
  pub results : List Io
  pub iteration : Connection → Connection

-- The mode of the program and of a call: `link_thread_safe`, `link_connection_should_block`,
-- `link_connection_wait_connected`, and what `klass->handle_input` makes of the connection.
pub record Mode : Type 0 where
  pub iov_max : ℕ
  pub thread_safe : Bool
  pub block : Bool
  pub wait_connected : Connection → Connection
  pub handle_input : Connection → Connection

-- The branches behind `write_data_T` in `link_connection_writev`; `again` is the next turn.
unfoldable pub attempted :
    Mode
    → Connection
    → Vecs
    → Option (IoStatus × Connection)
    → IoStatus
    → Option (IoStatus × Connection)
attempted m cnx left again (written n) = some (written 0, cnx)
attempted m cnx left again fatal_error = some (fatal_error, cnx)
attempted m cnx left again queued_data =
    if m.thread_safe
    then some (queued_data, queue_flattened cnx left true)
    else if not m.block
    then some (queued_data, queue_flattened (poll cnx true) left false)
    else again

-- The loop at `continue_write`; `none` where the turns do not suffice.
unfoldable pub continue_write :
    Mode → List Attempt → Connection → Vecs → Option (IoStatus × Connection)
continue_write m [] cnx vecs = none
continue_write m (a ∷ more) cnx vecs =
    let r = write_data_T m.iov_max cnx a.results vecs in
    let cnx1 = record cnx { wire = cnx.wire ++ r.sent } in
    attempted m cnx1 r.left (continue_write m more (a.iteration (poll cnx1 true)) r.left) r.status

abbrev pub is_disconnected : Status → Bool
is_disconnected disconnected = true
is_disconnected _ = false

-- `link_connection_writev`, from where the connection is known not to be waited for.
unfoldable pub writev_now : Mode → List Attempt → Connection → Vecs → Option (IoStatus × Connection)
writev_now m turns cnx vecs =
    if is_disconnected cnx.status
    then some (fatal_error, cnx)
    else if is_nil cnx.queue
    then continue_write m turns cnx vecs
    else some (queued_data, queue_flattened cnx vecs false)

abbrev pub is_connecting : Status → Bool
is_connecting connecting = true
is_connecting _ = false

-- `link_connection_writev`
unfoldable pub writev : Mode → List Attempt → Connection → Vecs → Option (IoStatus × Connection)
writev m turns cnx vecs =
    if m.thread_safe
    then (if is_connecting cnx.status
        then some (queued_data, queue_flattened cnx vecs true)
        else writev_now m turns cnx vecs)
    else writev_now m turns (if cnx.nonblocking then m.wait_connected cnx else cnx) vecs

-- `link_connection_state_changed_T_R`, without the signals and callbacks: a new watch waits for input,
-- and for G_IO_OUT too while the connection is being made.
abbrev pub state_changed : Connection → Status → Connection
state_changed cnx connecting = record cnx { status = connecting; poll_out = true }
state_changed cnx connected = record cnx {
  status = connected;
  poll_out = if has_watch cnx.status then cnx.poll_out else false;
}
state_changed cnx disconnected = disconnect cnx
state_changed cnx timeout = record (disconnect cnx) { status = timeout }

-- What `poll` found: LINK_IN_CONDS, LINK_ERR_CONDS and G_IO_OUT.
pub record Condition : Type 0 where
  pub input : Bool
  pub error : Bool
  pub out : Bool

abbrev pub is_connected : Status → Bool
is_connected connected = true
is_connected _ = false

-- What `poll` found, what `getsockopt` with SO_ERROR said of the new socket, and what `writev` does.
pub record Event : Type 0 where
  pub condition : Condition
  pub no_error : Bool
  pub results : List Io

-- The `switch` of `link_connection_io_handler`.
unfoldable pub status_handled : ℕ → Event → Connection → Status → Connection
status_handled iov_max e cnx connecting =
    let ready = e.condition.out && not e.condition.error && not e.condition.input in
    let cnx1 = state_changed (poll cnx false) connected in
    let cnx2 = flush_write_queue iov_max e.results cnx1 in
    if e.no_error && ready
    then (if is_nil cnx1.queue then cnx1 else cnx2)
    else state_changed cnx disconnected
status_handled iov_max e cnx connected =
    if e.condition.error then state_changed cnx disconnected else cnx
status_handled iov_max e cnx t = cnx

-- `link_connection_io_handler`, for a class that handles input.
unfoldable pub io_handler : Mode → Event → Connection → Connection
io_handler m e cnx =
    let cnx1 = if is_connected cnx.status && e.condition.input then m.handle_input cnx else cnx in
    let cnx2 =
      if is_connected cnx1.status && e.condition.out
      then flush_write_queue m.iov_max e.results cnx1
      else cnx1 in
    if e.condition.error || e.condition.out
    then status_handled m.iov_max e cnx2 cnx2.status
    else cnx2
