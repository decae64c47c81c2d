-- ===== src/Giop/Queue/Delivery.antt =====
-- src/orb/GIOP/giop-recv-buffer.c: who gets a reply, and who is told that a connection is gone.
use orbit.Base.{
  ℕ, ◌≡◌, refl, ◌⊎◌, inl, inr, Bool, true, false, Option, none, some, List, [], ◌∷◌, ◌++◌, ◌&&◌, ap,
  arith, ◌≢◌, if◌then◌else◌, ◌==◌, Bool-cases,
}
use orbit.Giop.Message.{Msg, RecvBuffer}
use orbit.Giop.Fragments.{get_request_id}
use orbit.Giop.Queue.{
  Entry, Queue, same_cnx, setup_queue_entry, remove_entry, find_entry, reply_status,
  system_exception, handle_reply, zap_entries, list_zap,
}

same_cnx→eq : (a b : Option ℕ) → same_cnx a b ≡ true → a ≡ b
same_cnx→eq none none h = refl
same_cnx→eq none (some b) h = cc
same_cnx→eq (some a) none h = cc
same_cnx→eq (some a) (some b) h = ground arith

same_cnx_refl : (a : Option ℕ) → same_cnx a a ≡ true
same_cnx_refl none = refl
same_cnx_refl (some a) = ground arith

abbrev Fits : RecvBuffer → Entry → Type 0
Fits buf e = (e.request_id ≡ get_request_id buf.msg) × (e.msg_type ≡ buf.header.message_type)

find_entry-Fits :
    (request_id msg_type : ℕ) (es : List Entry) (e : Entry)
    → find_entry request_id msg_type es ≡ some e
    → (e.request_id ≡ request_id) × (e.msg_type ≡ msg_type)
unfolding find_entry
find_entry-Fits request_id msg_type [] e h = cc
find_entry-Fits request_id msg_type (x ∷ es) e h =
    ground (arith, find_entry-Fits request_id msg_type es e)

entries_apart : (a b : Entry) → some a ≡ some b → (a.owner == b.owner) ≡ false → ⊥
entries_apart a b k other =
    let same : a.owner ≡ b.owner = ap (λ o. elim o [ none ↦ a.owner | some x ↦ x.owner ]) k in
    ground arith

-- The entry that is taken off when one has been found: it has the address of that one.
removed_at :
    (request_id msg_type : ℕ) (es : List Entry) (e : Entry)
    → find_entry request_id msg_type es ≡ some e
    → (before : List Entry) × (x : Entry) × (after : List Entry) × (es ≡ before ++ x ∷ after)
      × (x.owner ≡ e.owner)
      × (remove_entry e.owner es ≡ before ++ after)
unfolding find_entry remove_entry
removed_at request_id msg_type [] e h = cc
removed_at request_id msg_type (y ∷ es) e h = elim (Bool-cases (y.owner == e.owner)) [
  | inl same ↦ ([], y, es, refl, (ground arith), (rw (same) refl))
  | inr other ↦
      (let rest : find_entry request_id msg_type es ≡ some e =
          not_first other (y.request_id == request_id && y.msg_type == msg_type) h in
        let (before, x, after, split, owner, gone) = removed_at request_id msg_type es e rest in
        (
          y ∷ before,
          x,
          after,
          ap (λ ys. y ∷ ys) split,
          owner,
          (rw (other) (ap (λ ys. y ∷ ys) gone)),
        ))
]
  where
    not_first :
        (y.owner == e.owner) ≡ false
        → (b : Bool) → (if b then some y else find_entry request_id msg_type es) ≡ some e
        → find_entry request_id msg_type es ≡ some e
    not_first other true k = absurd (entries_apart y e k other)
    not_first other false k = k

-- What `handle_reply` did to the queue.
abbrev pub Replied : (Msg → ℕ) → RecvBuffer → Queue → Bool × Queue → Type 0
Replied status_at buf q (true, q') = q' ≡ q
Replied status_at buf q (false, q') =
    ((q' ≡ q) × (reply_status status_at buf.msg ≡ system_exception))
    ⊎ ((e : Entry) × Fits buf e
        × (e.cnx ≡ buf.connection)
        × ((before : List Entry) × (x : Entry) × (after : List Entry) × (q.queued
              ≡ before ++ x ∷ after)
            × (x.owner ≡ e.owner)
            × (q'.queued ≡ before ++ after))
        × (q'.woken ≡ record e { buffer = some buf } ∷ q.woken))

-- A reply reaches a waiting caller only with that caller's request id and message type, and only
-- over the connection that the caller waits on; an entry at that caller's address is then taken
-- out of the queue, all others stay in their order, and the caller is woken with the reply, in
-- front of those woken before. On an error the queue is as it was; without an error and without a
-- caller, the reply carries a system exception and the queue is as it was.
pub handle_reply-Replied :
    (status_at : Msg → ℕ) (buf : RecvBuffer) (q : Queue)
    → Replied status_at buf q (handle_reply status_at buf q)
unfolding handle_reply
handle_reply-Replied status_at buf q =
    found (find_entry (get_request_id buf.msg) buf.header.message_type q.queued) refl
  where
    found :
        (r : Option Entry)
        → find_entry (get_request_id buf.msg) buf.header.message_type q.queued ≡ r
        → Replied status_at buf q (handle_reply status_at buf q)
    found none e = elim (Bool-cases (reply_status status_at buf.msg == system_exception)) [
      | inl bounced ↦ rw (e, handle_reply, bounced) (inl (refl, ground arith))
      | inr unexpected ↦ rw (e, handle_reply, unexpected) refl
    ]
    found (some x) e = elim (Bool-cases (same_cnx x.cnx buf.connection)) [
      | inl same ↦
          rw (e, handle_reply, same)
            (inr (
              x,
              find_entry-Fits _ _ q.queued x e,
              same_cnx→eq _ _ same,
              removed_at _ _ q.queued x e,
              refl,
            ))
      | inr other ↦ rw (e, handle_reply, other) refl
    ]

-- A caller that has just begun to wait gets the reply to its request over its connection, whatever
-- the others wait for, and its entry is gone from the queue again.
pub handle_reply-setup_queue_entry :
    (status_at : Msg → ℕ) (owner cnx : ℕ) (buf : RecvBuffer) (q : Queue)
    → buf.connection ≡ some cnx
    → handle_reply status_at buf
        (setup_queue_entry owner cnx buf.header.message_type (get_request_id buf.msg) q)
      ≡ (
        false,
        record {
          queued = q.queued;
          woken =
              record {
                owner = owner;
                buffer = some buf;
                cnx = some cnx;
                msg_type = buf.header.message_type;
                request_id = get_request_id buf.msg;
                async_cb = false;
              }
              ∷ q.woken;
        },
      )
unfolding handle_reply setup_queue_entry find_entry remove_entry
handle_reply-setup_queue_entry status_at owner cnx buf q h = ground arith

other_cnx :
    (e : Entry) (cnx : ℕ) → e.cnx ≡ some cnx → same_cnx e.cnx (some cnx) ≡ false → true ≡ false
other_cnx e cnx same other = cc (same_cnx_refl (some cnx))

abbrev pub Elsewhere : ℕ → List Entry → Type 0
Elsewhere cnx [] = Unit
Elsewhere cnx (e ∷ es) = (e.cnx ≢ some cnx) × Elsewhere cnx es

-- Whether an entry waits on a connection.
abbrev pub is_on : ℕ → Option ℕ → Bool
is_on cnx none = false
is_on cnx (some c) = c == cnx

same_cnx-is_on : (cnx : ℕ) (o : Option ℕ) → same_cnx o (some cnx) ≡ is_on cnx o
same_cnx-is_on cnx none = refl
same_cnx-is_on cnx (some c) = refl

abbrev pub waiting_elsewhere : ℕ → List Entry → List Entry
waiting_elsewhere cnx [] = []
waiting_elsewhere cnx (e ∷ es) =
    if is_on cnx e.cnx then waiting_elsewhere cnx es else e ∷ waiting_elsewhere cnx es

-- Those that wait on the connection, the last one first, as they find themselves without a buffer and
-- without a connection, in front of `woken`.
abbrev pub cut_off : ℕ → List Entry → List Entry → List Entry
cut_off cnx [] woken = woken
cut_off cnx (e ∷ es) woken =
    cut_off cnx es
      (if is_on cnx e.cnx then record e { buffer = none; cnx = none } ∷ woken else woken)

zap_entries-Elsewhere :
    (cnx : ℕ) (es woken : List Entry) → Elsewhere cnx (zap_entries cnx es woken).queued
unfolding zap_entries
zap_entries-Elsewhere cnx [] woken = tt
zap_entries-Elsewhere cnx (e ∷ es) woken = elim (Bool-cases (same_cnx e.cnx (some cnx))) [
  | inl ours ↦
      rw ours (zap_entries-Elsewhere cnx es (record e { buffer = none; cnx = none } ∷ woken))
  | inr other ↦
      rw other (λ same. cc (other_cnx e cnx same other), zap_entries-Elsewhere cnx es woken)
]

zap_entries-queued :
    (cnx : ℕ) (es woken : List Entry) → (zap_entries cnx es woken).queued ≡ waiting_elsewhere cnx es
unfolding zap_entries
zap_entries-queued cnx [] woken = refl
zap_entries-queued cnx (e ∷ es) woken = elim (Bool-cases (is_on cnx e.cnx)) [
  | inl ours ↦
      rw (same_cnx-is_on cnx e.cnx, ours)
        (zap_entries-queued cnx es (record e { buffer = none; cnx = none } ∷ woken))
  | inr other ↦
      rw (same_cnx-is_on cnx e.cnx, other) (ap (λ ys. e ∷ ys) (zap_entries-queued cnx es woken))
]

zap_entries-woken :
    (cnx : ℕ) (es woken : List Entry) → (zap_entries cnx es woken).woken ≡ cut_off cnx es woken
unfolding zap_entries
zap_entries-woken cnx [] woken = refl
zap_entries-woken cnx (e ∷ es) woken = elim (Bool-cases (is_on cnx e.cnx)) [
  | inl ours ↦
      rw (same_cnx-is_on cnx e.cnx, ours)
        (zap_entries-woken cnx es (record e { buffer = none; cnx = none } ∷ woken))
  | inr other ↦ rw (same_cnx-is_on cnx e.cnx, other) (zap_entries-woken cnx es woken)
]

-- When a connection is lost, nobody is left waiting on it, everybody else waits on in the same
-- order, and those who waited on it are woken, without a buffer and without the connection, the
-- last of the queue first, in front of those woken before.
pub list_zap_lem :
    (cnx : ℕ) (q : Queue)
    → Elsewhere cnx (list_zap cnx q).queued
      × ((list_zap cnx q).queued ≡ waiting_elsewhere cnx q.queued)
      × ((list_zap cnx q).woken ≡ cut_off cnx q.queued q.woken)
unfolding list_zap
list_zap_lem cnx q = (
  zap_entries-Elsewhere cnx q.queued q.woken,
  zap_entries-queued cnx q.queued q.woken,
  zap_entries-woken cnx q.queued q.woken,
)
