-- ===== src/Poa/Adapter.antt =====
-- src/orb/poa/poa.c: a POA as far as its manager acts on it, that is its held requests, its use
-- counts and its deactivation. The chain of objects of a servant, the calls of user code and the
-- reference count of the POA itself are not modelled.
use orbit.Base.{
  ℕ, Bool, true, false, not, ◌&&◌, ◌||◌, Option, none, some, List, [], ◌∷◌, ◌++◌, map, ltb, leb,
  ◌-◌, if◌then◌else◌,
}

-- `PortableServer_POAManager_State`
pub data ManagerState : Type 0 where
  holding active discarding inactive : ManagerState

-- `struct ORBit_POAObject_type` with the reference count of its root object; the fields behind
-- `use_cnt` are its `life_flags`.
pub record PoaObject : Type 0 where
  pub refs : ℕ
  pub servant : Option ℕ
  pub use_cnt : ℕ
  pub need_post_invoke : Bool
  pub do_etherealize : Bool
  pub is_cleanup : Bool
  pub deactivate_do : Bool
  pub destroyed : Bool

-- What becomes of a request that is not held: the two system exceptions, or its object is called.
pub data Answer : Type 0 where
  transient obj_adapter invoked : ℕ → Answer

-- `struct PortableServer_POA_type`; `retain` is the servant retention policy, `answers` lists what
-- has been done with requests, the first one first.
pub record Poa : Type 0 where
  pub poa_id : ℕ
  pub use_cnt : ℕ
  pub held_requests : List ℕ
  pub objects : List PoaObject
  pub retain : Bool
  pub do_etherealize : Bool
  pub deactivate_do : Bool
  pub destroy_do : Bool
  pub deactivating : Bool
  pub deactivated : Bool
  pub answers : List Answer

abbrev pub answer : Answer → Poa → Poa
answer a poa = record poa { answers = poa.answers ++ a ∷ [] }

-- The `switch` on the state of the manager in `ORBit_POAObject_handle_request`, for a request from
-- outside to an object with a servant; what is held is a buffer that the caller frees.
unfoldable pub handle_request : ManagerState → ℕ → Poa → Poa
handle_request holding req poa = record poa { held_requests = req ∷ poa.held_requests }
handle_request discarding req poa = answer (transient req) poa
handle_request inactive req poa = answer (obj_adapter req) poa
handle_request active req poa = answer (invoked req) poa

-- `ORBit_POA_handle_held_requests`, or `none` when it reads freed memory: whoever passes a request
-- on frees its buffer as soon as it has been queued (`ORBit_POAObject_invoke_incoming_request`), and
-- what is replayed here first is looked up by the key that this buffer held.
unfoldable pub handle_held_requests : Poa → Option Poa
handle_held_requests poa = elim poa.held_requests [ [] ↦ some poa | req ∷ reqs ↦ none ]

abbrev pub any_inuse : List PoaObject → Bool
any_inuse [] = false
any_inuse (o ∷ os) = ltb 0 o.use_cnt || any_inuse os

-- `ORBit_POA_is_inuse` without the children, as the manager calls it.
unfoldable pub is_inuse : Poa → Bool
is_inuse poa = ltb 0 poa.use_cnt || any_inuse poa.objects

-- `ORBit_RootObject_release` with `ORBit_POAObject_release_cb`, as it acts while the POA is
-- deactivating: the last reference leaves the object in the map, marked as destroyed.
unfoldable pub release_object : PoaObject → PoaObject
release_object o =
    if leb o.refs 1
    then record o {
      refs = 0;
      need_post_invoke = false;
      do_etherealize = false;
      is_cleanup = false;
      deactivate_do = false;
      destroyed = true;
    }
    else record o { refs = o.refs - 1 }

-- `ORBit_POA_deactivate_object_T`, called while the POA is deactivating.
unfoldable pub deactivate_object : Bool → Bool → PoaObject → PoaObject
deactivate_object do_etherealize is_cleanup o = elim o.servant [
  | none ↦ o
  | some s ↦
      let o1 = record o {
        do_etherealize = o.do_etherealize || (do_etherealize && not o.deactivate_do);
        is_cleanup = o.is_cleanup || is_cleanup;
      } in
      if ltb 0 o.use_cnt
      then record o1 { deactivate_do = true; need_post_invoke = true }
      else release_object (record o1 {
        servant = none;
        do_etherealize = false;
        is_cleanup = false;
        deactivate_do = false;
      })
]

abbrev pub keep_alive : List PoaObject → List PoaObject
keep_alive [] = []
keep_alive (o ∷ os) = if o.destroyed then keep_alive os else o ∷ keep_alive os

-- `ORBit_POA_set_life` with `ORBit_LifeF_DeactivateDo`
unfoldable pub set_life_deactivate : Bool → Poa → Poa
set_life_deactivate etherealize poa = record poa {
  do_etherealize = poa.do_etherealize || (not (poa.deactivate_do || poa.destroy_do) && etherealize);
  deactivate_do = true;
}

-- The part of `ORBit_POA_deactivate` behind the held requests: its assertion that none is left holds
-- there, since `handle_held_requests` comes back only where there was none.
unfoldable pub deactivate_objects : Poa → Poa × Bool
deactivate_objects poa =
    let done = not (poa.retain && any_inuse poa.objects) in
    (
      record poa {
        objects =
            if poa.retain
            then keep_alive (map (deactivate_object poa.do_etherealize true) poa.objects)
            else poa.objects;
        deactivated = poa.deactivated || done;
        deactivating = false;
      },
      done,
    )

-- The part of `ORBit_POA_deactivate` behind its two early returns.
unfoldable pub deactivate_now : Poa → Option (Poa × Bool)
deactivate_now poa0 = elim (handle_held_requests (record poa0 { deactivating = true })) [
  | none ↦ none
  | some poa ↦ some (deactivate_objects poa)
]

-- `ORBit_POA_deactivate`; `none` when it reads freed memory.
unfoldable pub deactivate : Bool → Poa → Option (Poa × Bool)
deactivate etherealize poa0 =
    let poa = set_life_deactivate etherealize poa0 in
    if poa.deactivated
    then some (poa, true)
    else if poa.deactivating
    then some (poa, false)
    else deactivate_now poa
