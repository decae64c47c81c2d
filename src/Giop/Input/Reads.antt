-- ===== src/Giop/Input/Reads.antt =====
-- src/orb/GIOP/giop-recv-buffer.c: what a connection makes of its bytes does not depend on how they are
-- cut into reads, and a header is let through only if it is sound.
use orbit.Base.{
  ℕ, ◌+◌, ◌-◌, ◌≤◌, ◌<◌, ◌≡◌, refl, sym, ◌∙◌, ap, ◌⊎◌, Bool, true, Option, none, some, List, ◌∷◌,
  ◌++◌, append_assoc, arith, length, length-append, take, take-length_le, replicate,
}
use orbit.Giop.Wire.{convert32, convert32-word32, word32, byte_at, sender}
use orbit.Giop.Message.{
  GiopVersion, RecvBuffer, BufferState, reading_header, reading_body, awaiting_fragments, ready,
  MsgHeader,
}
use orbit.Giop.Reader.{Outcome}
use orbit.Giop.Fragments.{alloc_buffer}
use orbit.Giop.Input.{
  Config, Connection, Read, got, store, input_loop, bytes_stored, recv_msg_reading_body, header_of,
  is_giop, version_of,
}

store-left_to_read :
    (buf : RecvBuffer) (xs : List ℕ) → (store buf xs).left_to_read ≡ buf.left_to_read - length xs
store-left_to_read buf xs = go buf.state refl
  where
    go :
        (t : BufferState)
        → buf.state ≡ t
        → (store buf xs).left_to_read ≡ buf.left_to_read - length xs
    go reading_header e = ground arith
    go reading_body e = ground arith
    go awaiting_fragments e = ground arith
    go ready e = ground arith

bytes_stored_more :
    (k : Config) (next : RecvBuffer → Outcome Connection) (buf : RecvBuffer) (cnx : Connection)
    → 0 < buf.left_to_read
    → bytes_stored k next buf cnx ≡ next buf
unfolding bytes_stored
bytes_stored_more k next buf cnx h = ground arith

-- A round of the loop that is brought no more bytes than it asked for.
input_loop-got :
    (k : Config) (b : ℕ) (bs : List ℕ) (rs : List Read) (buf : RecvBuffer) (cnx : Connection)
    → length (b ∷ bs) ≤ buf.left_to_read
    → input_loop k (got b bs ∷ rs) buf cnx
      ≡ bytes_stored k (λ buf'. input_loop k rs buf' cnx) (store buf (b ∷ bs)) cnx
unfolding input_loop
input_loop-got k b bs rs buf cnx h = ground (arith, take-length_le buf.left_to_read (b ∷ bs) h)

spare_kept : (n : ℕ) → length (take (n + 12) (replicate {A = ℕ} 12 0)) ≡ 12
spare_kept n = rw (take-length_le (n + 12) (replicate {A = ℕ} 12 0) (omega arith))

-- What has arrived of the header, or of the body with the spare bytes in front of it.
abbrev pub arrived : RecvBuffer → List ℕ
arrived buf = elim buf.state [ reading_header ↦ buf.raw | _ ↦ buf.body ]

-- `cur` points behind what has arrived.
abbrev pub IsPlaced : RecvBuffer → Type 0
IsPlaced buf = buf.cur ≡ length (arrived buf)

all_taken : (n : ℕ) (bs : List ℕ) → n ≡ length bs → take n bs ≡ bs
all_taken n bs h = take-length_le n bs (omega (arith, h))

taken_again :
    (n : ℕ) (bs xs : List ℕ) → n ≡ length bs → take (n + length xs) (take n bs ++ xs) ≡ bs ++ xs
taken_again n bs xs h =
    let whole = all_taken n bs h in
    ap (λ b. take (n + length xs) (b ++ xs)) whole
    ∙ take-length_le (n + length xs) (bs ++ xs) (omega (arith, h, length-append bs xs))

-- Bytes that arrive stand behind those that were there, and `cur` stays behind them.
pub store-IsPlaced :
    (buf : RecvBuffer) (xs : List ℕ)
    → IsPlaced buf
    → (arrived (store buf xs) ≡ arrived buf ++ xs) × IsPlaced (store buf xs)
store-IsPlaced buf xs h = go buf.state refl
  where
    go :
        (t : BufferState)
        → buf.state ≡ t
        → (arrived (store buf xs) ≡ arrived buf ++ xs) × IsPlaced (store buf xs)
    go reading_header e =
        let p : buf.cur ≡ length buf.raw = ground arith in
        ground (arith, p, all_taken buf.cur buf.raw p, length-append buf.raw xs)
    go reading_body e =
        let p : buf.cur ≡ length buf.body = ground arith in
        ground (arith, p, all_taken buf.cur buf.body p, length-append buf.body xs)
    go awaiting_fragments e =
        let p : buf.cur ≡ length buf.body = ground arith in
        ground (arith, p, all_taken buf.cur buf.body p, length-append buf.body xs)
    go ready e =
        let p : buf.cur ≡ length buf.body = ground arith in
        ground (arith, p, all_taken buf.cur buf.body p, length-append buf.body xs)

store-append :
    (buf : RecvBuffer) (xs ys : List ℕ)
    → IsPlaced buf
    → store (store buf xs) ys ≡ store buf (xs ++ ys)
store-append buf xs ys placed = go buf.state refl
  where
    go : (t : BufferState) → buf.state ≡ t → store (store buf xs) ys ≡ store buf (xs ++ ys)
    go reading_header e =
        let p : buf.cur ≡ length buf.raw = ground arith in
        ground (
          arith,
          p,
          all_taken buf.cur buf.raw p,
          taken_again buf.cur buf.raw xs p,
          append_assoc buf.raw xs ys,
          length-append xs ys,
        )
    go reading_body e =
        let p : buf.cur ≡ length buf.body = ground arith in
        ground (
          arith,
          p,
          all_taken buf.cur buf.body p,
          taken_again buf.cur buf.body xs p,
          append_assoc buf.body xs ys,
          length-append xs ys,
        )
    go awaiting_fragments e =
        let p : buf.cur ≡ length buf.body = ground arith in
        ground (
          arith,
          p,
          all_taken buf.cur buf.body p,
          taken_again buf.cur buf.body xs p,
          append_assoc buf.body xs ys,
          length-append xs ys,
        )
    go ready e =
        let p : buf.cur ≡ length buf.body = ground arith in
        ground (
          arith,
          p,
          all_taken buf.cur buf.body p,
          taken_again buf.cur buf.body xs p,
          append_assoc buf.body xs ys,
          length-append xs ys,
        )

-- Where `cur` stands behind what has arrived of the part of the message being read, two reads in a
-- row, of which the first does not yet complete this part and both together fit it, leave the
-- connection as one read of their bytes would, whatever follows.
pub input_loop-split :
    (k : Config) (b c : ℕ) (bs cs : List ℕ) (rs : List Read) (buf : RecvBuffer) (cnx : Connection)
    → IsPlaced buf
    → length (b ∷ bs) < buf.left_to_read
    → length (b ∷ bs) + length (c ∷ cs) ≤ buf.left_to_read
    → input_loop k (got b bs ∷ got c cs ∷ rs) buf cnx
      ≡ input_loop k (got b (bs ++ c ∷ cs) ∷ rs) buf cnx
input_loop-split k b c bs cs rs buf cnx placed first both =
    input_loop-got k b bs (got c cs ∷ rs) buf cnx (omega arith)
    ∙ bytes_stored_more k _ (store buf (b ∷ bs)) cnx
        (omega (arith, store-left_to_read buf (b ∷ bs)))
    ∙ input_loop-got k c cs rs (store buf (b ∷ bs)) cnx
        (omega (arith, store-left_to_read buf (b ∷ bs)))
    ∙ ap (λ t. bytes_stored k (λ buf'. input_loop k rs buf' cnx) t cnx)
        (store-append buf (b ∷ bs) (c ∷ cs) placed)
    ∙ sym (input_loop-got k b (bs ++ c ∷ cs) rs buf cnx (omega (arith, length-append bs (c ∷ cs))))

-- A buffer whose header was let through, where the four bytes of its size are below 256, has its
-- magic and its version, a message type that exists, the size as the sender's byte order means it
-- and within the limit unless the peer is authenticated, and room for exactly the body, all of it
-- still to be read.
pub recv_msg_reading_body_accepts :
    (k : Config) (buf buf' : RecvBuffer) (is_auth : Bool)
    → byte_at buf.raw 8 < 256
    → byte_at buf.raw 9 < 256
    → byte_at buf.raw 10 < 256
    → byte_at buf.raw 11 < 256
    → recv_msg_reading_body k buf is_auth ≡ some buf'
    → (is_giop buf'.header.magic ≡ true)
      × (buf'.header.message_type < 8)
      × (version_of buf'.header.major buf'.header.minor ≡ some buf'.giop_version)
      × ((is_auth ≡ true) ⊎ (buf'.header.message_size ≤ k.limit))
      × (buf'.end ≡ 12 + buf'.header.message_size)
      × (buf'.left_to_read ≡ buf'.header.message_size)
      × (buf'.cur ≡ 12)
      × (length buf'.body ≡ 12)
      × (buf'.header.message_size
          ≡ word32
              (sender (byte_at buf.raw 6))
              (byte_at buf.raw 8)
              (byte_at buf.raw 9)
              (byte_at buf.raw 10)
              (byte_at buf.raw 11))
unfolding recv_msg_reading_body alloc_buffer
recv_msg_reading_body_accepts k buf buf' is_auth b8 b9 b10 b11 h =
    let (a, b, c, d, e, f, g, l, size) = go (version_of hd.major hd.minor) refl in
    let meant =
      convert32-word32 k.host hd.flags (byte_at buf.raw 8) (byte_at buf.raw 9) (byte_at buf.raw 10)
        (byte_at buf.raw 11) b8 b9 b10 b11 in
    (a, b, c, d, e, f, g, l, size ∙ (unfold header_of in meant))
  where
    hd : MsgHeader
    hd = header_of k.host buf.raw

    go :
        (v : Option GiopVersion)
        → version_of hd.major hd.minor ≡ v
        → (is_giop buf'.header.magic ≡ true)
          × (buf'.header.message_type < 8)
          × (version_of buf'.header.major buf'.header.minor ≡ some buf'.giop_version)
          × ((is_auth ≡ true) ⊎ (buf'.header.message_size ≤ k.limit))
          × (buf'.end ≡ 12 + buf'.header.message_size)
          × (buf'.left_to_read ≡ buf'.header.message_size)
          × (buf'.cur ≡ 12)
          × (length buf'.body ≡ 12)
          × (buf'.header.message_size ≡ convert32 k.host hd.flags hd.message_size)
    go none e = ground arith
    go (some v) e = ground (arith, spare_kept (convert32 k.host hd.flags hd.message_size))
