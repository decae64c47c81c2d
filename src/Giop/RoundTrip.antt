-- ===== src/Giop/RoundTrip.antt =====
-- What one side of the protocol sends, the other side reads, whatever the byte orders of the two:
-- src/orb/GIOP/giop-send-buffer.c against src/orb/GIOP/giop-recv-buffer.c.
use orbit.Base.{
  ℕ, suc, ◌+◌, ◌^◌, ◌≤◌, ◌<◌, ◌≡◌, refl, sym, ap, ◌∙◌, Option, List, [], ◌∷◌, ◌++◌, arith,
  append-nil, append_assoc, length, length-append, drop, replicate,
}
use orbit.Giop.Wire.{Endian, little, big, sender, byte_at, word32, bytes32, convert32-word32}
use orbit.Giop.MsgType
use orbit.Giop.Message.{GiopVersion, Msg, locate_reply}
use orbit.Giop.Reader.{Outcome, done, load_u32}
use orbit.Giop.Demarshal.{recv_buffer_demarshal, demarshal_locate_reply_1_1}
use orbit.Giop.SendBuffer.Memory.{
  append_copy, put_indirect, get_next_indirect, append_real, SendBuffer, Heap, Ptr, sent,
  header_bytes, append,
}
use orbit.Giop.SendBuffer.Payload.{Grows}
use orbit.Giop.SendBuffer.Sent.{
  grown_size, sent-IsSound, started-IsSound, Grows-trans, append_value-Grows,
}
use orbit.Giop.SendBuffer.Requests.{Setting, started, append_value, use_locate_reply}

word32-bytes :
    (e : Endian) (x : ℕ)
    → x < 2 ^ 32
    → word32 e
        (byte_at (bytes32 e x) 0)
        (byte_at (bytes32 e x) 1)
        (byte_at (bytes32 e x) 2)
        (byte_at (bytes32 e x) 3)
      ≡ x
word32-bytes little x h = omega arith
word32-bytes big x h = omega arith

byte_at-skip : (xs ys : List ℕ) (i : ℕ) → byte_at (xs ++ ys) (length xs + i) ≡ byte_at ys i
byte_at-skip [] ys i = ap (byte_at ys) (omega arith)
byte_at-skip (x ∷ xs) ys i =
    ap (byte_at (x ∷ (xs ++ ys))) (shift (length xs) i) ∙ byte_at-skip xs ys i
  where
    shift : (n j : ℕ) → suc n + j ≡ suc (n + j)
    shift n j = omega arith

byte_at-length : (xs ys : List ℕ) → byte_at (xs ++ ys) (length xs) ≡ byte_at ys 0
byte_at-length [] ys = refl
byte_at-length (x ∷ xs) ys = byte_at-length xs ys

load_u32-word :
    (host : Endian) (flags end : ℕ) (mem : List ℕ) (c a b d e : ℕ)
    → c + 4 ≤ length mem
    → byte_at mem c ≡ a
    → byte_at mem (c + 1) ≡ b
    → byte_at mem (c + 2) ≡ d
    → byte_at mem (c + 3) ≡ e
    → (a < 256) × (b < 256) × (d < 256) × (e < 256)
    → load_u32 (record { host = host; flags = flags; mem = mem; end = end }) c
      ≡ done (word32 (sender flags) a b d e, c + 4)
unfolding load_u32
load_u32-word host flags end mem c a b d e fits ea eb ed ee (ha, hb, hd, he) =
    rw (ea, eb, ed, ee) (ground (arith, convert32-word32 host flags a b d e ha hb hd he))

abbrev IsWordAt : Endian → List ℕ → ℕ → ℕ → Type 0
IsWordAt e mem c x =
    (byte_at mem c ≡ byte_at (bytes32 e x) 0)
    × (byte_at mem (c + 1) ≡ byte_at (bytes32 e x) 1)
    × (byte_at mem (c + 2) ≡ byte_at (bytes32 e x) 2)
    × (byte_at mem (c + 3) ≡ byte_at (bytes32 e x) 3)

bytes32-IsByte :
    (e : Endian) (x : ℕ)
    → (byte_at (bytes32 e x) 0 < 256)
      × (byte_at (bytes32 e x) 1 < 256)
      × (byte_at (bytes32 e x) 2 < 256)
      × (byte_at (bytes32 e x) 3 < 256)
bytes32-IsByte little x = omega arith
bytes32-IsByte big x = omega arith

word_behind :
    (e : Endian) (x : ℕ) (xs ys : List ℕ) (c : ℕ)
    → c ≡ length xs
    → IsWordAt e (xs ++ (bytes32 e x ++ ys)) c x
word_behind little x xs ys c h = rw h (
  byte_at-length xs (bytes32 little x ++ ys),
  byte_at-skip xs _ 1,
  byte_at-skip xs _ 2,
  byte_at-skip xs _ 3,
)
word_behind big x xs ys c h = rw h (
  byte_at-length xs (bytes32 big x ++ ys),
  byte_at-skip xs _ 1,
  byte_at-skip xs _ 2,
  byte_at-skip xs _ 3,
)

length-bytes32 : (e : Endian) (x : ℕ) → length (bytes32 e x) ≡ 4
length-bytes32 little x = refl
length-bytes32 big x = refl

-- The word behind `xs`, stored in the byte order of the flags, is read on any machine.
load_u32-bytes32 :
    (host : Endian) (flags x end : ℕ) (xs ys : List ℕ) (c : ℕ)
    → x < 2 ^ 32
    → c ≡ length xs
    → load_u32
        (record {
          host = host;
          flags = flags;
          mem = xs ++ (bytes32 (sender flags) x ++ ys);
          end = end;
        })
        c
      ≡ done (x, c + 4)
load_u32-bytes32 host flags x end xs ys c hx hc =
    let (b0, b1, b2, b3) = word_behind (sender flags) x xs ys c hc in
    load_u32-word host flags end (xs ++ (bytes32 (sender flags) x ++ ys)) c _ _ _ _
      (omega (
        arith,
        length-append xs (bytes32 (sender flags) x ++ ys),
        length-append (bytes32 (sender flags) x) ys,
        length-bytes32 (sender flags) x,
      ))
      b0 b1 b2 b3 (bytes32-IsByte (sender flags) x)
    ∙ ap (λ (v : ℕ). done (v, c + 4)) (word32-bytes (sender flags) x hx)

-- The body of a locate reply, read after the 12 bytes of the header.
demarshal_locate_reply_bytes :
    (host : Endian) (flags id status : ℕ) (spare : List ℕ)
    → length spare ≡ 12
    → id < 2 ^ 32
    → status < 2 ^ 32
    → demarshal_locate_reply_1_1
        (record {
          host = host;
          flags = flags;
          mem = spare ++ (bytes32 (sender flags) id ++ bytes32 (sender flags) status);
          end = 20;
        })
        12
      ≡ done (locate_reply (record { request_id = id; locate_status = status }), 20)
unfolding demarshal_locate_reply_1_1
demarshal_locate_reply_bytes host flags id status spare hs hi hst =
    let e = sender flags in
    let first = load_u32-bytes32 host flags id 20 spare (bytes32 e status) 12 hi (sym hs) in
    let second =
      load_u32-bytes32 host flags status 20 (spare ++ bytes32 e id) [] 16 hst
        (omega (arith, length-append spare (bytes32 e id), length-bytes32 e id)) in
    ground (
      arith,
      first,
      second,
      append_assoc spare (bytes32 e id) (bytes32 e status ++ []),
      append-nil (bytes32 e status),
    )

append-message_type :
    (heap : Heap) (buf : SendBuffer) (p : Ptr) (n : ℕ)
    → (append heap buf p n).message_type ≡ buf.message_type
unfolding append append_copy put_indirect get_next_indirect append_real
append-message_type heap buf p n = ground arith

-- What the receiver has of a message: its flags and its type from the header, and its body behind
-- 12 spare bytes.
abbrev pub received : Endian → GiopVersion → List ℕ → Outcome (Msg × ℕ)
received host version bytes =
    recv_buffer_demarshal (byte_at bytes 7) version
      (record {
        host = host;
        flags = byte_at bytes 6;
        mem = replicate 12 0 ++ drop 12 bytes;
        end = length bytes;
      })
      12

received-locate_reply_lem :
    (host sending : Endian) (version : GiopVersion) (buf : SendBuffer) (id status : ℕ)
    → buf.message_type ≡ MsgType.locate_reply
    → id < 2 ^ 32
    → status < 2 ^ 32
    → received host version
        (header_bytes sending buf ++ (bytes32 sending id ++ bytes32 sending status))
      ≡ done (locate_reply (record { request_id = id; locate_status = status }), 20)
unfolding recv_buffer_demarshal
received-locate_reply_lem host little version buf id status e hi hst =
    rw e (demarshal_locate_reply_bytes host 1 id status (replicate 12 0) refl hi hst)
received-locate_reply_lem host big version buf id status e hi hst =
    rw e (demarshal_locate_reply_bytes host 0 id status (replicate 12 0) refl hi hst)

module _ (t : Setting) (recycled : Option SendBuffer) (version : GiopVersion) where
  locate_reply_parts :
      (id status : ℕ)
      → Grows t.heap
          (started t recycled version MsgType.locate_reply)
          []
          (bytes32 t.host id ++ bytes32 t.host status)
          (use_locate_reply t recycled version id status)
  unfolding use_locate_reply
  locate_reply_parts id status =
      let buf = started t recycled version MsgType.locate_reply in
      let s = started-IsSound t recycled version MsgType.locate_reply in
      let bs = bytes32 t.host id in
      let cs = bytes32 t.host status in
      let b4 = length-bytes32 t.host id in
      let c4 = length-bytes32 t.host status in
      let grown =
        append_value-Grows t buf [] bs s (omega (arith, b4)) (omega (arith, b4, s.size)) in
      let size = grown_size t.heap buf (append_value t buf bs) [] bs s grown in
      Grows-trans t.heap buf (append_value t buf bs) (use_locate_reply t recycled version id status)
        [] grown.0 bs cs grown.2
        (append_value-Grows t (append_value t buf bs) grown.0 cs grown.1 (omega (arith, c4))
          (omega (arith, c4, b4, size, s.size)))

  -- The bytes of a locate reply: the header with the size 8, the request id and the status.
  locate_reply_sent :
      (id status : ℕ)
      → let buf = use_locate_reply t recycled version id status in
        sent t.host t.heap buf
        ≡ header_bytes t.host buf ++ (bytes32 t.host id ++ bytes32 t.host status)
  locate_reply_sent id status =
      let (rest, s, g) = locate_reply_parts id status in
      sent-IsSound t.host t.heap (use_locate_reply t recycled version id status) rest s
      ∙ ap (λ z. header_bytes t.host (use_locate_reply t recycled version id status) ++ z) g

  -- A locate reply arrives as it was sent: the receiver, of either byte order, reads the request
  -- id and the status that the sender, of either byte order, put in, and nothing is left over.
  pub received-locate_reply :
      (host : Endian) (id status : ℕ)
      → id < 2 ^ 32
      → status < 2 ^ 32
      → received host version (sent t.host t.heap (use_locate_reply t recycled version id status))
        ≡ done (locate_reply (record { request_id = id; locate_status = status }), 20)
  received-locate_reply host id status hi hst = rw (locate_reply_sent id status) (
      received-locate_reply_lem host t.host version (use_locate_reply t recycled version id status)
        id status
        (unfold use_locate_reply in
          (append-message_type t.heap _ _ _ ∙ append-message_type t.heap _ _ _))
        hi hst)
