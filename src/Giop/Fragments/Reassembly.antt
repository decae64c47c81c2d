-- ===== src/Giop/Fragments/Reassembly.antt =====
-- src/orb/GIOP/giop-recv-buffer.c: a whole message that arrives in fragments, call by call.
use orbit.Base.{
  ◌∙◌, ℕ, ◌+◌, ◌≤◌, ◌<◌, ◌≡◌, ◌≢◌, Bool, true, false, List, [], ◌∷◌, ◌++◌, arith, length,
  append-nil, append_assoc, map, subst, none, some, if◌then◌else◌,
}
use orbit.Giop.Wire.{Endian}
use orbit.Giop.MsgType
use orbit.Giop.Message.{RecvBuffer, giop_1_1, blank}
use orbit.Giop.Reader.{Outcome, done, broken, fault}
use orbit.Giop.Fragments.{
  is_1_1, get_request_id, frag_bytes, frag_size, append_fragment, handle_fragmented, message_id,
  find_frag, connection_get_frag, more_fragments_follow, u32, Handled,
}
use orbit.Giop.Fragments.Join.{
  IsTracked, IsInPlace, all_bytes, total, append_fragment_last, counted, counted-IsTracked,
}

-- A fragment of the message with an id: its own id is that one, its bytes behind the id are in
-- place, and it passed the limit. `c` is where these bytes begin.
pub record IsPart (host : Endian) (limit id : ℕ) (more : Bool) (b : RecvBuffer) (c : ℕ)
    : Type 0 where
  pub same_id : message_id host b ≡ done (id, c)
  pub in_place : IsInPlace (record b { cur = c })
  pub follow : more_fragments_follow b ≡ more
  pub small : b.header.message_size ≤ limit

get_frag_first :
    (head : RecvBuffer) (tail : List RecvBuffer) (lists : List (List RecvBuffer)) (first : Bool)
    → connection_get_frag ((head ∷ tail) ∷ lists) (get_request_id head.msg) first ≡ some 0
unfolding connection_get_frag find_frag
get_frag_first head tail lists first = ground arith

-- A fragment that continues the first list of the connection is appended to it.
continues :
    (host : Endian) (has_memory : ℕ → Bool) (limit : ℕ) (is_auth more : Bool) (b head : RecvBuffer)
    (c : ℕ) (tail : List RecvBuffer) (lists : List (List RecvBuffer))
    → IsPart host limit (get_request_id head.msg) more b c
    → head.header.message_type ≢ MsgType.fragment
    → handle_fragmented host has_memory limit is_auth b ((head ∷ tail) ∷ lists)
      ≡ append_fragment has_memory limit is_auth
          (record b { cur = c })
          0
          head
          tail
          ((head ∷ tail) ∷ lists)
unfolding handle_fragmented
continues host has_memory limit is_auth more b head c tail lists p real =
    ground
      (arith, p.same_id, get_frag_first head tail lists true, get_frag_first head tail lists false)

append_more :
    (has_memory : ℕ → Bool) (limit : ℕ) (is_auth : Bool) (b head : RecvBuffer)
    (tail : List RecvBuffer) (lists : List (List RecvBuffer))
    → more_fragments_follow b ≡ true
    → b.header.message_size ≤ limit
    → append_fragment has_memory limit is_auth b 0 head tail ((head ∷ tail) ∷ lists)
      ≡ done (record {
        error = false;
        buf = counted head b;
        frags = (counted head b ∷ (tail ++ b ∷ [])) ∷ lists;
      })
unfolding append_fragment
append_more has_memory limit is_auth b head tail lists more small = ground arith

-- A fragment with the place where its own bytes begin.
abbrev pub Part : Type 0
Part = RecvBuffer × ℕ

abbrev pub cut : Part → RecvBuffer
cut (b, c) = record b { cur = c }

abbrev pub AllParts : Endian → ℕ → ℕ → List Part → Type 0
AllParts host limit id [] = Unit
AllParts host limit id (p ∷ ps) = IsPart host limit id true p.0 p.1 × AllParts host limit id ps

module _ (host : Endian) (has_memory : ℕ → Bool) (limit : ℕ) (is_auth : Bool) where
  -- The calls of `giop_recv_buffer_handle_fragmented` for the parts of a message, up to the last.
  abbrev pub deliver : List RecvBuffer → RecvBuffer → List (List RecvBuffer) → Outcome Handled
  deliver [] last lists = handle_fragmented host has_memory limit is_auth last lists
  deliver (b ∷ bs) last lists = elim (handle_fragmented host has_memory limit is_auth b lists) [
    | done r ↦ if r.error then done r else deliver bs last r.frags
    | broken ↦ broken
    | fault ↦ fault
  ]

  -- What the last call hands on.
  abbrev pub Whole :
      RecvBuffer → List RecvBuffer → RecvBuffer → List (List RecvBuffer) → Outcome Handled → Type 0
  Whole head tail last lists r =
      (whole : RecvBuffer) × (r ≡ done (record { error = false; buf = whole; frags = lists }))
      × (whole.body ≡ head.body ++ (all_bytes tail ++ frag_bytes last))
      × (whole.end ≡ length head.body + total tail + frag_size last)
      × (whole.msg ≡ head.msg)

  deliver_rest :
      (ps : List Part) (head : RecvBuffer) (tail : List RecvBuffer) (lists : List (List RecvBuffer))
      (last : Part)
      → IsTracked head tail
      → head.header.message_type ≢ MsgType.fragment
      → AllParts host limit (get_request_id head.msg) ps
      → IsPart host limit (get_request_id head.msg) false last.0 last.1
      → last.0.header.message_type ≡ MsgType.fragment
      → head.header.message_size + total (map cut ps) + frag_size (cut last) < u32
      → ((n : ℕ) → has_memory n ≡ true)
      → Whole head
          (tail ++ map cut ps)
          (cut last)
          lists
          (deliver (map (λ (p : Part). p.0) ps) last.0 ((head ∷ tail) ∷ lists))
  deliver_rest [] head tail lists last t real parts p frag fits mem =
      let e = continues host has_memory limit is_auth false last.0 head last.1 tail lists p real in
      let (whole, made, body, end, msg) =
        append_fragment_last has_memory limit 0 is_auth (cut last) head tail ((head ∷ tail) ∷ lists)
          t p.in_place frag p.follow p.small (omega arith) mem in
      rw (append-nil tail) (whole, e ∙ made, body, end, msg)
  deliver_rest (q ∷ qs) head tail lists last t real parts p frag fits mem =
      let b = cut q in
      let e =
        continues host has_memory limit is_auth true q.0 head q.1 tail lists parts.0 real
        ∙ append_more has_memory limit is_auth b head tail lists parts.0.follow parts.0.small in
      let t' = counted-IsTracked b head tail t parts.0.in_place (omega arith) in
      let rest =
        deliver_rest qs (counted head b) (tail ++ b ∷ []) lists last t' real parts.1 p frag
          (omega arith) mem in
      rw (e, deliver)
        (subst
          (λ l. Whole head l (cut last) lists (
            deliver (map (λ (r : Part). r.0) qs) last.0
              ((counted head b ∷ (tail ++ b ∷ [])) ∷ lists)))
          (append_assoc tail (b ∷ []) (map cut qs)) rest)

  -- A message that begins to arrive: its decoder has stopped inside its bytes, all of which are there.
  pub record Begins (first : RecvBuffer) : Type 0 where
    pub behind_header : 12 ≤ first.cur
    pub owned : first.free_body ≡ true
    pub filled : length first.body ≡ first.end
    pub size : first.header.message_size + 12 ≡ first.end
    pub follow : more_fragments_follow first ≡ true
    pub own_id : message_id host first ≡ done (get_request_id first.msg, first.cur)
    pub whole_type : first.header.message_type ≢ MsgType.fragment

  -- A message in fragments is put together again: where nothing of a message with its id is kept
  -- yet, memory can be had, each part is in place and within the limit, and the total length fits
  -- 32 bits, the last part completes it; what is handed on holds the bytes of the first part and
  -- then of each fragment behind its id, in their order, and the connection keeps what it kept
  -- before.
  pub deliver-Whole :
      (first : RecvBuffer) (ps : List Part) (last : Part) (lists : List (List RecvBuffer))
      → Begins first
      → connection_get_frag lists (get_request_id first.msg) (is_1_1 first.giop_version) ≡ none
      → AllParts host limit (get_request_id first.msg) ps
      → IsPart host limit (get_request_id first.msg) false last.0 last.1
      → last.0.header.message_type ≡ MsgType.fragment
      → first.header.message_size + total (map cut ps) + frag_size (cut last) < u32
      → ((n : ℕ) → has_memory n ≡ true)
      → Whole first
          (map cut ps)
          (cut last)
          lists
          (deliver (first ∷ map (λ (p : Part). p.0) ps) last.0 lists)
  unfolding handle_fragmented
  deliver-Whole first ps last lists b unknown parts p frag fits mem =
      let e : handle_fragmented host has_memory limit is_auth first lists
          ≡ done (record { error = false; buf = first; frags = (first ∷ []) ∷ lists }) =
        ground (arith, b.own_id, b.follow) in
      let t : IsTracked first [] = record {
        behind_header = b.behind_header;
        owned = b.owned;
        filled = b.filled;
        parts = tt;
        size = omega (arith, b.size);
      } in
      rw (e, deliver) (deliver_rest ps first [] lists last t b.whole_type parts p frag fits mem)

-- Two fragments of a GIOP 1.1 message whose beginning never came make the second call fail its
-- assertion: the first one is kept as if it were a message.
pub handle_fragmented_headless :
    (host : Endian) (has_memory : ℕ → Bool) (limit : ℕ) (is_auth : Bool) (a b : RecvBuffer)
    → a.header.message_type ≡ MsgType.fragment
    → b.header.message_type ≡ MsgType.fragment
    → a.giop_version ≡ giop_1_1
    → b.giop_version ≡ giop_1_1
    → more_fragments_follow a ≡ true
    → a.msg ≡ blank
    → (handle_fragmented host has_memory limit is_auth a []
        ≡ done (record { error = false; buf = a; frags = (a ∷ []) ∷ [] }))
      × (handle_fragmented host has_memory limit is_auth b ((a ∷ []) ∷ []) ≡ fault)
unfolding handle_fragmented message_id connection_get_frag find_frag get_request_id
handle_fragmented_headless host has_memory limit is_auth a b ta tb va vb more blanked = ground arith
