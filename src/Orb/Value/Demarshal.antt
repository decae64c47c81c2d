-- ===== src/Orb/Value/Demarshal.antt =====
-- src/orb/orb-core/corba-any.c: `ORBit_demarshal_value` for the type codes whose values are plain data.
use orbit.Base.{
  ℕ, zero, suc, ◌+◌, Bool, Option, none, some, List, [], ◌∷◌, ◌==◌, leb, if◌then◌else◌, length,
  drop, slice,
}
use orbit.Giop.Reader.{
  Outcome, done, broken, fault, Reader, ◌>>=◌, ◌>>◌, pure, reject, align_cur, need, need_len,
  advance, peek_u8, copy_octets,
}
use orbit.Orb.Words.{swapped}
use orbit.Orb.TypeCode.{
  size, TypeCode, Types, Cases, word, null, string, fixed, sequence, array, struct, union, alias,
  field, over, case, is_octet, union_switch, union_tag,
}
use orbit.Orb.Value.{Value, Values, nothing, number, text, items, choice, nil, cons}

-- `*ptr = *(T *) buf->cur`, swapped by `GUINT16_SWAP_LE_BE`, its relatives or `giop_byteswap`, and
-- `buf->cur += n`
unfoldable pub load : ℕ → Reader ℕ
load n w c =
    if leb (c + n) (length w.mem)
    then done (swapped w.host w.flags (slice c n w.mem), c + n)
    else fault

-- The cases for words.
unfoldable pub demarshal_word : ℕ → Reader ℕ
demarshal_word n =
    if n == 1 then (do need 1; x ← peek_u8; advance 1; pure x) else (do align_cur n; need n; load n)

-- `CORBA_string_dup` copies up to the first 0, wherever that is.
abbrev pub dup : List ℕ → Outcome (List ℕ)
dup [] = fault
dup (zero ∷ bs) = done []
dup (suc b ∷ bs) = elim (dup bs) [ done s ↦ done (suc b ∷ s) | broken ↦ broken | fault ↦ fault ]

abbrev pub string_dup : Reader (List ℕ)
string_dup w c = elim (dup (drop c w.mem)) [
  | done s ↦ done (s, c)
  | broken ↦ broken
  | fault ↦ fault
]

-- The case for strings. The length is a `CORBA_long`: a negative one is refused by
-- `(buf->cur + i) < buf->cur`.
abbrev pub string_of : ℕ → Reader (List ℕ)
string_of i =
    if leb 0x80000000 i then reject else (do need_len i; s ← string_dup; advance i; pure s)

unfoldable pub demarshal_string : Reader (List ℕ)
demarshal_string = demarshal_word 4 >>= string_of

abbrev pub repeat : ℕ → Reader Value → Reader Values
repeat zero m = pure nil
repeat (suc n) m = do v ← m; vs ← repeat n m; pure (cons v vs)

abbrev pub numbers : List ℕ → Values
numbers [] = nil
numbers (b ∷ bs) = cons (number b) (numbers bs)

-- The elements of a sequence, behind its length.
unfoldable pub demarshal_elements : Bool → ℕ → Reader Value → Reader Values
demarshal_elements block n one =
    if n == 0
    then pure nil
    else if block
    then (do bs ← copy_octets n; pure (numbers bs))
    else repeat n one

abbrev pub abort : {A : Type 0} → Reader A
abort w c = fault

-- A discriminator that cannot be read is a g_error, which ends the program, as a fault does.
abbrev pub switched : Option ℕ → (ℕ → Reader Value) → Reader Value
switched none k = abort
switched (some label) k = k label

-- `ORBit_demarshal_value`, without its cases for any, object references, type codes, principals and
-- wide strings, whose type codes are not modelled.
unfoldable mutual
  pub demarshal_value : TypeCode → Reader Value
  demarshal_value (word k) = do x ← demarshal_word (size k); pure (number x)
  demarshal_value null = pure nothing
  demarshal_value string = do s ← demarshal_string; pure (text s)
  demarshal_value fixed = reject
  demarshal_value (sequence t) = do
    n ← demarshal_word 4
    vs ← demarshal_elements (is_octet t) n (demarshal_value t)
    pure (items vs)
  demarshal_value (array n t) = do vs ← repeat n (demarshal_value t); pure (items vs)
  demarshal_value (struct ts) = do vs ← demarshal_fields ts; pure (items vs)
  demarshal_value (union k d cs) = do
    x ← demarshal_word (size k)
    v ← switched (union_switch k x) (λ label. demarshal_case (union_tag d cs label) cs)
    pure (choice x v)
  demarshal_value (alias t) = demarshal_value t

  pub demarshal_fields : Types → Reader Values
  demarshal_fields (field t ts) = do
    v ← demarshal_value t
    vs ← demarshal_fields ts
    pure (cons v vs)
  demarshal_fields ts = pure nil

  pub demarshal_case : Option ℕ → Cases → Reader Value
  demarshal_case none cs = pure nothing
  demarshal_case (some i) over = pure nothing
  demarshal_case (some zero) (case l t cs) = demarshal_value t
  demarshal_case (some (suc i)) (case l t cs) = demarshal_case (some i) cs
