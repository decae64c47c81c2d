-- ===== src/Giop/Fragments/Join.antt =====
-- src/orb/GIOP/giop-recv-buffer.c: joining the fragments of a message gives back its bytes.
use orbit.Base.{
  ap, ◌∙◌, ℕ, ◌+◌, ◌-◌, ◌%◌, ◌≤◌, ◌<◌, ◌≡◌, refl, Bool, true, false, List, [], ◌∷◌, ◌++◌, arith,
  length, take-length_le, append-nil, append_assoc, sym,
}
use orbit.Giop.MsgType
use orbit.Giop.Message.{RecvBuffer}
use orbit.Giop.Reader.{done, fault}
use orbit.Giop.Fragments.{
  frag_bytes, frag_size, gulong, copy_frags, concat_frags, alloc_buffer, append_fragment,
  more_fragments_follow, u32, set, remove_at,
}

abbrev pub total : List RecvBuffer → ℕ
total [] = 0
total (b ∷ bs) = frag_size b + total bs

abbrev pub all_bytes : List RecvBuffer → List ℕ
all_bytes [] = []
all_bytes (b ∷ bs) = frag_bytes b ++ all_bytes bs

total-append : (xs ys : List RecvBuffer) → total (xs ++ ys) ≡ total xs + total ys
total-append [] ys = omega arith
total-append (x ∷ xs) ys = omega (arith, total-append xs ys)

-- A fragment whose decoding has stopped inside its bytes, all of which are there.
abbrev pub IsInPlace : RecvBuffer → Type 0
IsInPlace b = (b.cur ≤ b.end) × (b.end ≤ length b.body) × (b.end < gulong)

abbrev pub AllInPlace : List RecvBuffer → Type 0
AllInPlace [] = Unit
AllInPlace (b ∷ bs) = IsInPlace b × AllInPlace bs

AllInPlace-append :
    (xs : List RecvBuffer) (b : RecvBuffer)
    → AllInPlace xs
    → IsInPlace b
    → AllInPlace (xs ++ b ∷ [])
AllInPlace-append [] b hx hb = (hb, tt)
AllInPlace-append (x ∷ xs) b hx hb = (hx.0, AllInPlace-append xs b hx.1 hb)

frag_size-eq-sub : (b : RecvBuffer) → IsInPlace b → frag_size b ≡ b.end - b.cur
unfolding frag_size
frag_size-eq-sub b h = omega arith

-- What the head of a list of fragments records: where its own bytes end, and the length of all.
pub record IsTracked (head : RecvBuffer) (tail : List RecvBuffer) : Type 0 where
  pub behind_header : 12 ≤ head.cur
  pub owned : head.free_body ≡ true
  pub filled : length head.body ≡ head.end
  pub parts : AllInPlace tail
  pub size : head.header.message_size + 12 ≡ head.end + total tail

copy_frags_all :
    (room : ℕ) (mem : List ℕ) (ptr : ℕ) (l : List RecvBuffer)
    → AllInPlace l
    → ptr + total l ≤ room
    → copy_frags room mem ptr l ≡ done (mem ++ all_bytes l, ptr + total l)
unfolding copy_frags
copy_frags_all room mem ptr [] p h = ground (arith, append-nil mem)
copy_frags_all room mem ptr (b ∷ l) p h = ground (
  arith,
  frag_size-eq-sub b,
  copy_frags_all room (mem ++ frag_bytes b) (ptr + frag_size b) l,
  append_assoc mem (frag_bytes b) (all_bytes l),
)

-- Enough room: what `concat_frags` allocates holds the head's bytes and all fragments.
concat_fits :
    {head : RecvBuffer} (tail : List RecvBuffer)
    → IsTracked head tail
    → head.end + total tail ≤ head.header.message_size + head.cur - 12 + 12
concat_fits tail t = omega arith

-- Joining a tracked list of fragments, where memory can be had, gives the head with the bytes of
-- all fragments behind its own, in their order, and `cur` as the head's decoder left it.
pub concat_frags_joins :
    (has_memory : ℕ → Bool) (head : RecvBuffer) (tail : List RecvBuffer)
    → IsTracked head tail
    → has_memory (head.header.message_size + head.cur - 12 + 12) ≡ true
    → concat_frags has_memory head tail
      ≡ done (record head {
        body = head.body ++ all_bytes tail;
        end = head.end + total tail;
        left_to_read = 0;
        free_body = true;
      })
unfolding concat_frags alloc_buffer
concat_frags_joins has_memory head tail t e = ground (
  arith,
  concat_fits tail t,
  t.owned,
  take-length_le head.end head.body (omega (arith, t.filled)),
  take-length_le (head.header.message_size + head.cur - 12 + 12) head.body,
  copy_frags_all (head.header.message_size + head.cur - 12 + 12) head.body head.end tail,
)

-- The head after `head->msg.header.message_size += (buf->end - buf->cur)`.
abbrev pub counted : RecvBuffer → RecvBuffer → RecvBuffer
counted head buf = record head {
  header = record (head.header) { message_size = (head.header.message_size + frag_size buf) % u32 };
}

pub counted-IsTracked :
    (buf head : RecvBuffer) (tail : List RecvBuffer)
    → IsTracked head tail
    → IsInPlace buf
    → head.header.message_size + frag_size buf < u32
    → IsTracked (counted head buf) (tail ++ buf ∷ [])
counted-IsTracked buf head tail t p fits = record {
  parts = AllInPlace-append tail buf t.parts p;
  behind_header = t.behind_header;
  owned = t.owned;
  filled = t.filled;
  size = omega (arith, t.size, total-append tail (buf ∷ []));
}

-- A fragment of a tracked message that more will follow, in place and within the limit itself, is
-- kept behind the others, and the list stays tracked as long as the total length fits 32 bits: the
-- size limit is not applied to the total.
pub append_fragment_more :
    (has_memory : ℕ → Bool) (limit i : ℕ) (is_auth : Bool) (buf head : RecvBuffer)
    (tail : List RecvBuffer) (lists : List (List RecvBuffer))
    → IsTracked head tail
    → IsInPlace buf
    → more_fragments_follow buf ≡ true
    → buf.header.message_size ≤ limit
    → head.header.message_size + frag_size buf < u32
    → (head' : RecvBuffer) × (append_fragment has_memory limit is_auth buf i head tail lists
        ≡ done (record {
          error = false;
          buf = head';
          frags = set lists i (head' ∷ (tail ++ buf ∷ []));
        }))
      × IsTracked head' (tail ++ buf ∷ [])
      × (head'.body ≡ head.body)
unfolding append_fragment
append_fragment_more has_memory limit i is_auth buf head tail lists t p more small fits =
    (counted head buf, ground arith, counted-IsTracked buf head tail t p fits, refl)

all_bytes-append : (xs ys : List RecvBuffer) → all_bytes (xs ++ ys) ≡ all_bytes xs ++ all_bytes ys
all_bytes-append [] ys = refl
all_bytes-append (x ∷ xs) ys =
    rw (all_bytes-append xs ys) (sym (append_assoc (frag_bytes x) (all_bytes xs) (all_bytes ys)))

-- The last fragment of a tracked message completes it, where memory can be had, the total length
-- fits 32 bits and the fragment is in place and within the limit: the list is taken off the
-- connection, and the buffer that is handed on holds the bytes of the first message, of the
-- fragments in the order of their arrival, and of the last one, and nothing else.
pub append_fragment_last :
    (has_memory : ℕ → Bool) (limit i : ℕ) (is_auth : Bool) (buf head : RecvBuffer)
    (tail : List RecvBuffer) (lists : List (List RecvBuffer))
    → IsTracked head tail
    → IsInPlace buf
    → buf.header.message_type ≡ MsgType.fragment
    → more_fragments_follow buf ≡ false
    → buf.header.message_size ≤ limit
    → head.header.message_size + frag_size buf < u32
    → ((n : ℕ) → has_memory n ≡ true)
    → (whole : RecvBuffer) × (append_fragment has_memory limit is_auth buf i head tail lists
        ≡ done (record { error = false; buf = whole; frags = remove_at lists i }))
      × (whole.body ≡ head.body ++ (all_bytes tail ++ frag_bytes buf))
      × (whole.end ≡ length head.body + total tail + frag_size buf)
      × (whole.msg ≡ head.msg)
unfolding append_fragment
append_fragment_last has_memory limit i is_auth buf head tail lists t p frag last small fits mem =
    let head' : RecvBuffer = counted head buf in
    let tail' : List RecvBuffer = tail ++ buf ∷ [] in
    let whole : RecvBuffer = record head' {
      body = head.body ++ all_bytes tail';
      end = head.end + total tail';
      left_to_read = 0;
      free_body = true;
    } in
    let joined : concat_frags has_memory head' tail' ≡ done whole =
      concat_frags_joins has_memory head' tail' (counted-IsTracked buf head tail t p fits)
        (mem _) in
    (
      whole,
      ground (arith, joined),
      ap (λ bs. head.body ++ bs)
          (all_bytes-append tail (buf ∷ [])
            ∙ ap (λ b. all_bytes tail ++ b) (append-nil (frag_bytes buf))),
      omega (arith, t.filled, total-append tail (buf ∷ [])),
      refl,
    )

-- Where memory can be had, a first fragment with `cur` up to 7 bytes past `end`, as the last
-- alignment of GIOP 1.2 can leave it, makes `concat_frags` copy out of bounds: the length of the
-- copy wraps to nearly 2 ^ 64, which is more than the fragment's memory holds.
pub concat_frags_overrun :
    (has_memory : ℕ → Bool) (head buf : RecvBuffer) (tail : List RecvBuffer)
    → buf.end < buf.cur
    → buf.cur ≤ buf.end + 7
    → length buf.body < gulong - 7
    → ((n : ℕ) → has_memory n ≡ true)
    → concat_frags has_memory head (buf ∷ tail) ≡ fault
unfolding concat_frags alloc_buffer copy_frags frag_size
concat_frags_overrun has_memory head buf tail past near small mem =
    ground (arith, mem (head.header.message_size + head.cur - 12 + 12))
