-- ===== src/Orb/TypeCode.antt =====
-- include/orbit/orb-core/corba-typecode.h: type codes, as far as the values that they describe are
-- plain data. The sizes are those of a 64-bit build.
use orbit.Base.{
  ◌≡◌, arith, ◌-◌, ℕ, suc, ◌+◌, ◌*◌, Bool, true, false, Option, none, some, ◌==◌, if◌then◌else◌,
  leb, ltb, ◌%◌, ◌<◌,
}
use orbit.Giop.Wire.{align_value}

-- The kinds of `CORBA_TCKind` whose values are one word.
pub data Kind : Type 0 where
  short ushort wchar long ulong enumeration float double boolean char octet longlong ulonglong
        longdouble :
      Kind

-- `sizeof` of the word, which is its alignment too; `CORBA_long_double` is a `gdouble`.
abbrev pub size : Kind → ℕ
size short = 2
size ushort = 2
size wchar = 2
size long = 4
size ulong = 4
size enumeration = 4
size float = 4
size double = 8
size boolean = 1
size char = 1
size octet = 1
size longlong = 8
size ulonglong = 8
size longdouble = 8

-- `struct CORBA_TypeCode_struct`. A union has its discriminator behind all aliases, its
-- `default_index`, `none` for -1, and its cases with their labels; `struct` stands for
-- `CORBA_tk_except` too, and `null` for `CORBA_tk_void`.
mutual
  pub data TypeCode : Type 0 where
    word : Kind → TypeCode
    null string fixed : TypeCode
    sequence : TypeCode → TypeCode
    array : ℕ → TypeCode → TypeCode
    struct : Types → TypeCode
    union : Kind → Option ℕ → Cases → TypeCode
    alias : TypeCode → TypeCode

  pub data Types : Type 0 where
    done : Types
    field : TypeCode → Types → Types

  pub data Cases : Type 0 where
    over : Cases
    case : ℕ → TypeCode → Cases → Cases

-- The kinds that are sent as blocks of bytes.
abbrev pub is_octet : TypeCode → Bool
is_octet (word boolean) = true
is_octet (word char) = true
is_octet (word octet) = true
is_octet _ = false

abbrev pub is_place : Option ℕ → ℕ → Bool
is_place none i = false
is_place (some d) i = d == i

-- A signed number below `whole` as the bit pattern of a `glong`.
abbrev pub widen : ℕ → ℕ → ℕ → ℕ
widen half whole x = if leb half x then x + 0x10000000000000000 - whole else x

-- `ORBit_get_union_switch`: a word of 32 or 16 bits is read as a signed number; `none` is its g_error.
unfoldable pub union_switch : Kind → ℕ → Option ℕ
union_switch short x = some (widen 0x8000 0x10000 x)
union_switch ushort x = some (widen 0x8000 0x10000 x)
union_switch long x = some (widen 0x80000000 0x100000000 x)
union_switch ulong x = some (widen 0x80000000 0x100000000 x)
union_switch enumeration x = some (widen 0x80000000 0x100000000 x)
union_switch boolean x = some x
union_switch char x = some x
union_switch octet x = some x
union_switch _ x = none

-- The loop of `ORBit_get_union_tag`, from place `i` on: the place of the case with the label.
abbrev pub find_label : Option ℕ → ℕ → ℕ → Cases → Option ℕ
find_label default i label over = none
find_label default i label (case l t cs) =
    let rest = find_label default (suc i) label cs in
    if is_place default i then rest else if l == label then some i else rest

-- `ORBit_get_union_tag`: the place of the case that a discriminator chooses, and `none` for TC_null.
unfoldable pub union_tag : Option ℕ → Cases → ℕ → Option ℕ
union_tag default cs label = elim (find_label default 0 label cs) [
  | some i ↦ some i
  | none ↦ default
]

abbrev pub max : ℕ → ℕ → ℕ
max a b = if ltb a b then b else a

-- `ORBit_TC_find_c_alignment`, which fills the field `c_align`.
unfoldable mutual
  pub c_align : TypeCode → ℕ
  c_align (word k) = size k
  c_align null = 1
  c_align string = 8
  c_align fixed = 2
  c_align (sequence t) = 8
  c_align (array n t) = c_align t
  c_align (struct ts) = c_align_struct 1 ts
  c_align (union k d cs) = c_align_union (max 1 (size k)) cs
  c_align (alias t) = c_align t

  pub c_align_struct : ℕ → Types → ℕ
  c_align_struct acc done = acc
  c_align_struct acc (field t ts) = c_align_struct (max acc (c_align t)) ts

  pub c_align_union : ℕ → Cases → ℕ
  c_align_union acc over = acc
  c_align_union acc (case l t cs) = c_align_union (max acc (c_align t)) cs

-- A variable of the type `int`, as its bit pattern, and what it is as a `size_t`.
abbrev pub int_of : ℕ → ℕ
int_of x = x % 0x100000000

abbrev pub size_of_int : ℕ → ℕ
size_of_int x = widen 0x80000000 0x100000000 x

-- `ORBit_gather_alloc_info`, with its loops over the members of a structure (`sum` is what they take
-- so far, in an `int`) and over the cases of a union (`above` and `at` are the alignment of the case
-- before and of the last one that is stricter than the one before it, `prev` the largest size, again
-- in an `int`).
unfoldable mutual
  pub gather_alloc_info : TypeCode → ℕ
  gather_alloc_info (word k) = size k
  gather_alloc_info null = 0
  gather_alloc_info string = 8
  gather_alloc_info fixed = 4
  gather_alloc_info (sequence t) = 24
  gather_alloc_info (array n t) = gather_alloc_info t * n % 0x10000000000000000
  gather_alloc_info (struct ts) =
      size_of_int (int_of (align_value (gather_struct 0 ts) (c_align (struct ts))))
  gather_alloc_info (union k d cs) =
      size_of_int (int_of (align_value (gather_union (size k) 1 0 0 cs) (c_align (union k d cs))))
  gather_alloc_info (alias t) = gather_alloc_info t

  pub gather_struct : ℕ → Types → ℕ
  gather_struct sum done = sum
  gather_struct sum (field t ts) =
      gather_struct (int_of (align_value sum (c_align t) + gather_alloc_info t)) ts

  pub gather_union : ℕ → ℕ → ℕ → ℕ → Cases → ℕ
  gather_union sum above at prev over =
      int_of ((if at == 0 then sum else int_of (align_value sum at)) + prev)
  gather_union sum above at prev (case l t cs) =
      gather_union sum (c_align t) (if ltb above (c_align t) then c_align t else at)
        (int_of (max (size_of_int prev) (gather_alloc_info t))) cs

-- A union with an octet for its discriminator whose cases are a double, an octet, and an array of
-- an odd number of longs, three at least and at most 2 ^ 27 + 1, is allocated 4 bytes less than
-- its array takes where the code puts it.
pub union_overrun :
    (m l1 l2 l3 : ℕ) (d : Option ℕ)
    → m < 0x4000000
    → let body = array (2 * m + 3) (word long) in
      let u = union octet d (case l1 (word double) (case l2 (word octet) (case l3 body over))) in
      gather_alloc_info u + 4 ≡ align_value (size octet) (c_align u) + gather_alloc_info body
unfolding gather_alloc_info c_align
union_overrun m l1 l2 l3 d small = ground arith
