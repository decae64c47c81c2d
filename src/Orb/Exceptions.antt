-- ===== src/Orb/Exceptions.antt =====
-- src/orb/orb-core/orbit-small.c and corba-env.c: exceptions as the body of a reply.
pub mod Returned
pub mod RoundTrip
mod Tests
use orbit.Base.{
  ℕ, zero, suc, ◌+◌, Bool, true, false, Option, none, some, List, [], ◌∷◌, ◌++◌, ◌==◌,
  if◌then◌else◌, length, drop, same_text,
}
use orbit.Giop.Reader.{
  Outcome, done, broken, fault, Reader, Wire, ◌>>=◌, ◌>>◌, pure, reject, advance,
}
use orbit.Giop.SendBuffer.Memory.{SendBuffer, constant, append_aligned}
use orbit.Giop.SendBuffer.Requests.{Setting, append_string}
use orbit.Orb.Words.{to_bytes}
use orbit.Orb.TypeCode.{TypeCode}
use orbit.Orb.Value.{Value}
use orbit.Orb.Value.Marshal.{marshal_value}
use orbit.Orb.Value.Demarshal.{demarshal_word, demarshal_value, dup}

-- The type code of an exception that an operation declares, with its `repo_id`.
pub record Declared : Type 0 where
  pub repo_id : List ℕ
  pub type : TypeCode

-- What a `CORBA_Environment` holds: a system exception with its id, if it has one, `minor` and
-- `completed`; a user exception with its id and its value, if it could be read; or the MARSHAL exception
-- that the code raises itself.
pub data Exception : Type 0 where
  system : Option (List ℕ) → ℕ → ℕ → Exception
  user : List ℕ → Option Value → Exception
  marshal_maybe : Exception

-- The reply statuses CORBA_USER_EXCEPTION and CORBA_SYSTEM_EXCEPTION, and any other.
pub data Major : Type 0 where
  user_exception system_exception other : Major

-- The loop of `ORBit_small_send_user_exception`.
abbrev pub find_declared : List Declared → List ℕ → Option Declared
find_declared [] id = none
find_declared (d ∷ ds) id =
    let rest = find_declared ds id in if same_text d.repo_id id then some d else rest

module _ (t : Setting) where
  abbrev pub append_text : SendBuffer → List ℕ → SendBuffer
  append_text buf s =
      append_string t buf (record { place = constant (s ++ 0 ∷ []); offset = 0 }) (length s + 1)

  -- `ORBit_send_system_exception`
  unfoldable pub send_system_exception : List ℕ → ℕ → ℕ → SendBuffer → SendBuffer
  send_system_exception id minor completed buf =
      append_aligned t.gap (append_aligned t.gap (append_text buf id) (to_bytes t.host 4 minor))
        (to_bytes t.host 4 completed)

  -- `ORBit_small_send_user_exception`; `none` is its FALSE, for an exception that is not declared.
  unfoldable pub send_user_exception :
      List Declared → List ℕ → Value → SendBuffer → Option SendBuffer
  send_user_exception types id v buf = elim (find_declared types id) [
    | none ↦ none
    | some d ↦ some (marshal_value t d.type v (append_text buf id))
  ]

  -- The branches for exceptions behind `handle_possible_exception` of `ORBit_small_invoke_adaptor`,
  -- where `buf` is the reply that `giop_send_buffer_use_reply` begins with the status that is returned
  -- here. An exception that is not declared is sent as UNKNOWN with COMPLETED_MAYBE; its id, `unknown`,
  -- is generated from IDL. `none` stands for an exception without an id or a value, which the code
  -- cannot send.
  unfoldable pub send_exception :
      List ℕ → List Declared → Exception → SendBuffer → Option (Major × SendBuffer)
  send_exception unknown types (system (some id) minor completed) buf =
      some (system_exception, send_system_exception id minor completed buf)
  send_exception unknown types (user id (some v)) buf = elim (send_user_exception types id v buf) [
    | some buf1 ↦ some (user_exception, buf1)
    | none ↦ some (system_exception, send_system_exception unknown 0 2 buf)
  ]
  send_exception unknown types e buf = none

-- `strcmp` with a text in the memory of a message.
abbrev pub strcmp : List ℕ → List ℕ → Outcome Bool
strcmp as' [] = fault
strcmp [] (zero ∷ bs) = done true
strcmp [] (suc b ∷ bs) = done false
strcmp (a ∷ as') (b ∷ bs) = let rest = strcmp as' bs in if a == b then rest else done false

-- The loop of `ORBit_handle_exception_array` where there is a text.
abbrev pub find_at : List Declared → List ℕ → Outcome (Option Declared)
find_at [] mem = done none
find_at (d ∷ ds) mem =
    let rest = find_at ds mem in
    elim (strcmp d.repo_id mem) [
      | done true ↦ done (some d)
      | done false ↦ rest
      | broken ↦ broken
      | fault ↦ fault
    ]

-- `ORBit_demarshal_arg`, whose NULL is kept, and `CORBA_exception_set`.
unfoldable pub demarshal_user : Declared → Reader Exception
demarshal_user d w c = elim (demarshal_value d.type w c) [
  | done (v, c') ↦ done (user d.repo_id (some v), c')
  | broken ↦ done (user d.repo_id none, c)
  | fault ↦ fault
]

-- The loop without a text ends at once, at the first type.
unfoldable pub first_declared : List Declared → Reader Exception
first_declared [] w c = done (marshal_maybe, c)
first_declared (d ∷ ds) w c = demarshal_user d w c

-- The branch for user exceptions; `at` is `my_repoid`.
unfoldable pub user_body : List Declared → Option ℕ → Reader Exception
user_body types none = first_declared types
user_body types (some at) = λ w c. elim (find_at types (drop at w.mem)) [
  | done none ↦ done (marshal_maybe, c)
  | done (some d) ↦ demarshal_user d w c
  | broken ↦ broken
  | fault ↦ fault
]

-- `CORBA_string_dup (my_repoid)`
abbrev pub id_at : Option ℕ → Reader (Option (List ℕ))
id_at none w c = done (none, c)
id_at (some at) w c = elim (dup (drop at w.mem)) [
  | done s ↦ done (some s, c)
  | broken ↦ broken
  | fault ↦ fault
]

unfoldable pub system_body : Option ℕ → Reader Exception
system_body at = do
  minor ← demarshal_word 4
  completed ← demarshal_word 4
  id ← id_at at
  pure (system id minor completed)

abbrev pub here : Reader ℕ
here w c = done (c, c)

-- The id of the exception: its place is noted, and `cur` moves on by the length, which is not tested.
abbrev pub repoid : ℕ → Reader (Option ℕ)
repoid len = if len == 0 then pure none else (do at ← here; advance len; pure (some at))

unfoldable pub exception_body : List Declared → Major → Reader Exception
exception_body types major = do
  len ← demarshal_word 4
  at ← repoid len
  elim major [
    | system_exception ↦ system_body at
    | user_exception ↦ user_body types at
    | other ↦ reject
  ]

-- `ORBit_handle_exception_array`; a body that breaks off is the MARSHAL exception.
unfoldable pub handle_exception_array : List Declared → Major → Wire → ℕ → Outcome Exception
handle_exception_array types major w c = elim (exception_body types major w c) [
  | done (e, c') ↦ done e
  | broken ↦ done marshal_maybe
  | fault ↦ fault
]
