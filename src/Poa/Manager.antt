-- ===== src/Poa/Manager.antt =====
-- src/orb/poa/poa-manager.c: the state machine of the requests to a group of POAs.
pub mod Laws
pub mod Requests
use orbit.Base.{
  ℕ, Bool, true, false, not, ◌&&◌, ◌||◌, Option, none, some, List, [], ◌∷◌, ◌++◌, ◌==◌,
  if◌then◌else◌,
}
use orbit.Poa.Adapter.{
  ManagerState, holding, active, discarding, inactive, Poa, handle_held_requests, is_inuse,
  deactivate,
}

-- `struct PortableServer_POAManager_type`. The collection holds the POAs themselves, and `poa_id`
-- tells them apart, as their addresses do.
pub record Manager : Type 0 where
  pub state : ManagerState
  pub poa_collection : List Poa

-- What an operation sets in its environment.
pub data Exception : Type 0 where
  no_exception bad_param adapter_inactive bad_inv_order : Exception

-- `ORBit_POAManager_new`
unfoldable pub manager_new : Manager
manager_new = record { state = holding; poa_collection = [] }

-- `ORBit_POAManager_register_poa`
unfoldable pub register_poa : Poa → Manager → Manager
register_poa poa m = record m { poa_collection = m.poa_collection ++ poa ∷ [] }

abbrev remove_poa : ℕ → List Poa → List Poa
remove_poa poa_id [] = []
remove_poa poa_id (poa ∷ poas) = if poa.poa_id == poa_id then poas else poa ∷ remove_poa poa_id poas

-- `ORBit_POAManager_unregister_poa`
unfoldable pub unregister_poa : ℕ → Manager → Manager
unregister_poa poa_id m = record m { poa_collection = remove_poa poa_id m.poa_collection }

abbrev pub is_inactive : ManagerState → Bool
is_inactive inactive = true
is_inactive _ = false

-- A call on a null pointer (`none`) raises BAD_PARAM, a call on an inactive manager
-- AdapterInactive; `step` is what it does otherwise. The call itself is `none` when it reads freed
-- memory.
abbrev pub unless_inactive :
    (Manager → Option (Exception × Manager)) → Option Manager → Option (Exception × Option Manager)
unless_inactive step none = some (bad_param, none)
unless_inactive step (some m) =
    if is_inactive m.state
    then some (adapter_inactive, some m)
    else elim (step m) [ none ↦ none | some (e, m') ↦ some (e, some m') ]

-- The loops over the POAs of a manager.
abbrev pub for_each : (Poa → Option Poa) → List Poa → Option (List Poa)
for_each f [] = some []
for_each f (poa ∷ poas) = elim (f poa) [
  | none ↦ none
  | some poa' ↦ elim (for_each f poas) [ none ↦ none | some poas' ↦ some (poa' ∷ poas') ]
]

abbrev with_poas : ManagerState → Option (List Poa) → Option (Exception × Manager)
with_poas state none = none
with_poas state (some poas) = some (no_exception, record { state = state; poa_collection = poas })

-- `PortableServer_POAManager_activate`
unfoldable pub manager_activate : Option Manager → Option (Exception × Option Manager)
manager_activate =
    unless_inactive λ m. with_poas active (for_each handle_held_requests m.poa_collection)

-- `PortableServer_POAManager_hold_requests`; the flag only decides on a warning.
unfoldable pub manager_hold_requests : Bool → Option Manager → Option (Exception × Option Manager)
manager_hold_requests wait_for_completion =
    unless_inactive λ m. some (no_exception, record m { state = holding })

-- `PortableServer_POAManager_discard_requests`
unfoldable pub manager_discard_requests :
    Bool → Option Manager → Option (Exception × Option Manager)
manager_discard_requests wait_for_completion =
    unless_inactive λ m. some (no_exception, record m { state = discarding })

abbrev pub any_idle : List Poa → Bool
any_idle [] = false
any_idle (poa ∷ poas) = not (is_inuse poa) || any_idle poas

abbrev pub deactivate_poa : Bool → Poa → Option Poa
deactivate_poa etherealize poa = elim (deactivate etherealize poa) [
  | none ↦ none
  | some (poa', done) ↦ some poa'
]

-- `PortableServer_POAManager_deactivate`
unfoldable pub manager_deactivate :
    Bool → Bool → Option Manager → Option (Exception × Option Manager)
manager_deactivate etherealize_objects wait_for_completion = unless_inactive λ m.
    if wait_for_completion && any_idle m.poa_collection
    then some (bad_inv_order, m)
    else with_poas inactive (for_each (deactivate_poa etherealize_objects) m.poa_collection)

-- `PortableServer_POAManager_get_state`
unfoldable pub get_state : Manager → ManagerState
get_state m = m.state
