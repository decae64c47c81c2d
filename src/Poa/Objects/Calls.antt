-- ===== src/Poa/Objects/Calls.antt =====
-- src/orb/poa/poa.c: what the calls of a POA leave of its active object map.
use orbit.Base.{ℕ, ◌≡◌, ap, subst, Option, none, some, List}
use orbit.Poa.Objects.{
  ActiveMap, Called, returned, raised, aborted, blocked, object_id_lookup, new_system_objid, Call,
  activate, to_id, activate_with_id, deactivate, to_servant, left, perform, reference_with,
  to_reference, new_reference,
}
use orbit.Poa.Objects.Soundness.{IsSound}
use orbit.Poa.Objects.Activation.{
  Keeps, activate_object-Keeps, servant_to_id-Keeps, activate_object_with_id-Keeps,
  deactivate_object-Keeps,
}
use orbit.Poa.Objects.References.{
  create_reference_with_id-Keeps, id_to_reference-Keeps, id_to_servant-Keeps,
  create_reference-Keeps,
}

some_inj : (a b : ActiveMap) → some a ≡ some b → a ≡ b
some_inj a b e = ap (λ o. elim o [ none ↦ a | some x ↦ x ]) e

left-IsSound : (A : Type 0) (c : Called A) (m : ActiveMap) → Keeps A c → left c ≡ some m → IsSound m
left-IsSound A (returned a n) m h e = subst IsSound (some_inj n m e) h
left-IsSound A (raised x n) m h e = subst IsSound (some_inj n m e) h
left-IsSound A aborted m h e = cc
left-IsSound A blocked m h e = cc

-- Where the id that the POA would make next is not in its map, and each object that is active
-- stands once in the list of its servant and in no other list, and a servant of a POA with
-- UNIQUE_ID has one object at most, this still holds after any call of the POA that comes back,
-- whether it returns or raises an exception.
pub perform-IsSound :
    (genuid : ℕ → List ℕ) (c : Call) (m m' : ActiveMap)
    → IsSound m
    → object_id_lookup (new_system_objid genuid m) m.objects ≡ none
    → perform genuid c m ≡ some m'
    → IsSound m'
perform-IsSound genuid (activate s) m m' h fresh e =
    left-IsSound (List ℕ) _ m' (activate_object-Keeps m h genuid fresh s) e
perform-IsSound genuid (to_id s) m m' h fresh e =
    left-IsSound (List ℕ) _ m' (servant_to_id-Keeps m h genuid fresh s) e
perform-IsSound genuid (activate_with_id id s) m m' h fresh e =
    left-IsSound (Unit {0}) _ m' (activate_object_with_id-Keeps m h id s) e
perform-IsSound genuid (deactivate id) m m' h fresh e =
    left-IsSound (Unit {0}) _ m' (deactivate_object-Keeps m h id) e
perform-IsSound genuid (reference_with id) m m' h fresh e =
    left-IsSound (List ℕ) _ m' (create_reference_with_id-Keeps m h id) e
perform-IsSound genuid (to_servant id) m m' h fresh e =
    left-IsSound (Option ℕ) _ m' (id_to_servant-Keeps m h id) e
perform-IsSound genuid (to_reference id) m m' h fresh e =
    left-IsSound (List ℕ) _ m' (id_to_reference-Keeps m h id) e
perform-IsSound genuid new_reference m m' h fresh e =
    left-IsSound (List ℕ) _ m' (create_reference-Keeps m h genuid fresh) e
