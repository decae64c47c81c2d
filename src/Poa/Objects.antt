-- ===== src/Poa/Objects.antt =====
-- src/orb/poa/poa.c: the active object map of a POA, that is which servant serves which object id, and
-- the objects that each servant heads. Etherealization, references beside their existence and the
-- invocation stack are not modelled; an object is known by its id, under which the map holds it,
-- and a servant serves this POA only. The POA is not being deactivated, and where it has SYSTEM_ID an
-- id that is passed in has been made by it.
pub mod Tables
pub mod Soundness
pub mod Activation
pub mod References
pub mod Calls
pub mod Faults
mod Tests
use orbit.Base.{
  ℕ, suc, ◌+◌, ◌-◌, ◌*◌, ◌%◌, ◌^◌, Bool, true, false, not, ◌&&◌, ◌||◌, Option, none, some, List, [],
  ◌∷◌, ◌++◌, ◌==◌, ltb, leb, if◌then◌else◌, same_text,
}

-- `struct ORBit_POAObject_type`: `servant` is a pointer, `has_ref` says that `base.objref` is set.
pub record Object : Type 0 where
  pub object_id : List ℕ
  pub servant : Option ℕ
  pub refs : ℕ
  pub use_cnt : ℕ
  pub deactivate_do : Bool
  pub has_ref : Bool

-- `struct PortableServer_POA_type`, with its policies, its lock, and `_private` of all servants: the ids
-- of the objects that are linked by `next`.
pub record ActiveMap : Type 0 where
  pub retain : Bool
  pub unique_id : Bool
  pub system_id : Bool
  pub implicit : Bool
  pub locked : Bool
  pub next_sysid : ℕ
  pub objects : List Object
  pub private : ℕ → List (List ℕ)

pub data Exception : Type 0 where
  wrong_policy servant_already_active object_already_active object_not_active servant_not_active :
      Exception

-- What a call comes to: it returns, it raises an exception, an assertion of it fails, or it waits for a
-- lock that nobody will give back.
pub data Called (A : Type 0) : Type 0 where
  returned : A → ActiveMap → Called A
  raised : Exception → ActiveMap → Called A
  aborted : Called A
  blocked : Called A

-- `ORBit_POA_object_id_lookup_T`
abbrev pub object_id_lookup : List ℕ → List Object → Option Object
object_id_lookup id [] = none
object_id_lookup id (o ∷ os) =
    let rest = object_id_lookup id os in if same_text o.object_id id then some o else rest

abbrev pub without : List ℕ → List Object → List Object
without id [] = []
without id (o ∷ os) =
    let rest = without id os in if same_text o.object_id id then rest else o ∷ rest

abbrev pub store : Object → ActiveMap → ActiveMap
store o m = record m { objects = o ∷ without o.object_id m.objects }

abbrev pub is_nil : List (List ℕ) → Bool
is_nil [] = true
is_nil (id ∷ ids) = false

-- A servant's list without the object, which has to be in it.
abbrev pub unlink : List ℕ → List (List ℕ) → List (List ℕ)
unlink id [] = []
unlink id (x ∷ xs) = let rest = x ∷ unlink id xs in if same_text x id then xs else rest

abbrev pub set_private : ℕ → List (List ℕ) → ActiveMap → ActiveMap
set_private s ids m = record m { private = λ t. if t == s then ids else m.private t }

-- `ORBit_POA_create_object_T`
abbrev pub new_object : List ℕ → Object
new_object id = record {
  object_id = id;
  servant = none;
  refs = 0;
  use_cnt = 0;
  deactivate_do = false;
  has_ref = false;
}

-- `ORBit_POA_activate_object_T`
unfoldable pub activate_object_T : Object → ℕ → ActiveMap → ActiveMap
activate_object_T o s m =
    set_private s (o.object_id ∷ m.private s)
      (store (record o { servant = some s; refs = o.refs + 1 }) m)

-- `ORBit_RootObject_release` with `ORBit_POAObject_release_cb`, while the POA is not deactivating.
unfoldable pub release : Object → ActiveMap → ActiveMap
release o m =
    if leb o.refs 1
    then record m { objects = without o.object_id m.objects }
    else store (record o { refs = o.refs - 1 }) m

-- `ORBit_POA_deactivate_object_T`
unfoldable pub deactivate_object_T : Object → ActiveMap → ActiveMap
deactivate_object_T o m = elim o.servant [
  | none ↦ m
  | some s ↦
      if ltb 0 o.use_cnt
      then store (record o { deactivate_do = true }) m
      else release (record o { servant = none; deactivate_do = false })
          (set_private s (unlink o.object_id (m.private s)) m)
]

abbrev pub lock : ActiveMap → ActiveMap
lock m = record m { locked = true }

abbrev pub unlock : ActiveMap → ActiveMap
unlock m = record m { locked = false }

-- The bytes of a new id: `genuid` is the random part behind the number.
module _ (genuid : ℕ → List ℕ) where
  -- `ORBit_POA_new_system_objid_T`
  abbrev pub new_system_objid : ActiveMap → List ℕ
  new_system_objid m = genuid ((m.next_sysid + 1) % 2 ^ 32)

  abbrev pub activate_new : ℕ → ActiveMap → Called (List ℕ)
  activate_new s m =
      let id = new_system_objid m in
      returned id (
        unlock (
          activate_object_T (new_object id) s
            (record m { next_sysid = (m.next_sysid + 1) % 2 ^ 32 })))

  -- `PortableServer_POA_activate_object`. What fails a test returns with the lock held.
  unfoldable pub activate_object : ℕ → ActiveMap → Called (List ℕ)
  activate_object s m =
      if m.locked
      then blocked
      else if not m.retain || not m.system_id
      then raised wrong_policy (lock m)
      else if m.unique_id && not (is_nil (m.private s))
      then raised servant_already_active (lock m)
      else activate_new s m

  -- `PortableServer_POA_servant_to_id`, for a POA without a default servant and outside of an
  -- invocation.
  unfoldable pub servant_to_id : ℕ → ActiveMap → Called (List ℕ)
  servant_to_id s m =
      if m.locked
      then blocked
      else if not (m.retain && (m.unique_id || m.implicit))
      then raised wrong_policy (lock m)
      else if m.unique_id && not (is_nil (m.private s))
      then elim (m.private s) [ [] ↦ aborted | id ∷ ids ↦ returned id m ]
      else if m.implicit
      then if m.system_id then activate_new s m else aborted
      else raised servant_not_active m

abbrev pub is_active : Option Object → Bool
is_active none = false
is_active (some o) = elim o.servant [ none ↦ false | some t ↦ true ]

abbrev pub found_or_new : List ℕ → Option Object → Object
found_or_new id none = new_object id
found_or_new id (some o) = o

-- `PortableServer_POA_activate_object_with_id`
unfoldable pub activate_object_with_id : List ℕ → ℕ → ActiveMap → Called (Unit {0})
activate_object_with_id id s m =
    let pobj = object_id_lookup id m.objects in
    if m.locked
    then blocked
    else if not m.retain
    then raised wrong_policy (lock m)
    else if is_active pobj
    then raised object_already_active m
    else if m.unique_id && not (is_nil (m.private s))
    then raised servant_already_active m
    else if ltb 0 (found_or_new id pobj).use_cnt
    then aborted
    else returned tt (activate_object_T (found_or_new id pobj) s m)

-- `PortableServer_POA_deactivate_object`
unfoldable pub deactivate_object : List ℕ → ActiveMap → Called (Unit {0})
deactivate_object id m =
    if m.locked
    then blocked
    else if not m.retain
    then raised wrong_policy (lock m)
    else elim (object_id_lookup id m.objects) [
      | none ↦ returned tt m
      | some o ↦ returned tt (deactivate_object_T o m)
    ]

-- `ORBit_POA_obj_to_ref` with an interface
unfoldable pub obj_to_ref : Option Object → ActiveMap → Called (List ℕ)
obj_to_ref none m = aborted
obj_to_ref (some o) m =
    if o.has_ref
    then aborted
    else returned o.object_id (store (record o { has_ref = true; refs = o.refs + 1 }) m)

-- `PortableServer_POA_create_reference`
unfoldable pub create_reference : (ℕ → List ℕ) → ActiveMap → Called (List ℕ)
create_reference genuid m =
    let o = new_object (new_system_objid genuid m) in
    if m.locked
    then blocked
    else if not m.system_id
    then raised wrong_policy (lock m)
    else obj_to_ref (some o) (store o (record m { next_sysid = (m.next_sysid + 1) % 2 ^ 32 }))

-- `PortableServer_POA_create_reference_with_id`
unfoldable pub create_reference_with_id : List ℕ → ActiveMap → Called (List ℕ)
create_reference_with_id id m =
    let pobj = object_id_lookup id m.objects in
    if m.locked
    then blocked
    else obj_to_ref pobj (elim pobj [ none ↦ store (new_object id) m | some o ↦ m ])

-- `PortableServer_POA_id_to_servant`, for a POA that retains its servants: its result is a constant.
unfoldable pub id_to_servant : List ℕ → ActiveMap → Called (Option ℕ)
id_to_servant id m =
    if m.locked
    then blocked
    else if not m.retain
    then raised wrong_policy (lock m)
    else elim (object_id_lookup id m.objects) [
      | none ↦ raised object_not_active m
      | some o ↦ elim o.servant [ none ↦ raised object_not_active m | some s ↦ returned none m ]
    ]

-- `PortableServer_POA_id_to_reference`: a reference is known by the id of its object.
unfoldable pub id_to_reference : List ℕ → ActiveMap → Called (List ℕ)
id_to_reference id m =
    if m.locked
    then blocked
    else if not m.retain
    then raised wrong_policy (lock m)
    else elim (object_id_lookup id m.objects) [
      | none ↦ raised object_not_active m
      | some o ↦ elim o.servant [
        | none ↦ raised object_not_active m
        | some s ↦ if o.has_ref then returned o.object_id m else obj_to_ref (some o) m
      ]
    ]

-- The calls, and what each leaves of the map.
pub data Call : Type 0 where
  activate to_id : ℕ → Call
  activate_with_id : List ℕ → ℕ → Call
  deactivate reference_with to_servant to_reference : List ℕ → Call
  new_reference : Call

abbrev pub left : {A : Type 0} → Called A → Option ActiveMap
left (returned a m) = some m
left (raised x m) = some m
left aborted = none
left blocked = none

abbrev pub perform : (ℕ → List ℕ) → Call → ActiveMap → Option ActiveMap
perform genuid (activate s) m = left (activate_object genuid s m)
perform genuid (to_id s) m = left (servant_to_id genuid s m)
perform genuid (activate_with_id id s) m = left (activate_object_with_id id s m)
perform genuid (deactivate id) m = left (deactivate_object id m)
perform genuid (reference_with id) m = left (create_reference_with_id id m)
perform genuid (to_reference id) m = left (id_to_reference id m)
perform genuid new_reference m = left (create_reference genuid m)
perform genuid (to_servant id) m = left (id_to_servant id m)
