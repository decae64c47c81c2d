-- ===== src/Poa/Objects/Tests.antt =====
-- src/orb/poa/poa.c: a POA with UNIQUE_ID, SYSTEM_ID and RETAIN, and one object.
use orbit.Base.{ℕ, ◌≡◌, refl, true, false, some, none, List, [], ◌∷◌, arith}
use orbit.Poa.Objects.{
  ActiveMap, servant_already_active, returned, raised, object_id_lookup, activate_object_T,
  activate_object, activate_object_with_id, deactivate_object, activate, perform,
}
use orbit.Poa.Objects.Soundness.{IsSound}
use orbit.Poa.Objects.Calls.{perform-IsSound}
use orbit.Poa.Objects.Faults.{deactivate_object-activated}

abbrev genuid : ℕ → List ℕ
genuid n = n ∷ []

abbrev empty : ActiveMap
empty = record {
  retain = true;
  unique_id = true;
  system_id = true;
  implicit = false;
  locked = false;
  next_sysid = 6;
  objects = [];
  private = λ s. [];
}

empty-IsSound : IsSound empty
empty-IsSound = record { linked = λ s id. refl; single = λ s u. omega arith }

-- Servant 4 serves object 9.
abbrev one : ActiveMap
one =
    activate_object_T
      (record {
        object_id = 9 ∷ [];
        servant = none;
        refs = 0;
        use_cnt = 0;
        deactivate_do = false;
        has_ref = false;
      })
      4 empty

activated : activate_object_with_id (9 ∷ []) 4 empty ≡ returned tt one
unfolding activate_object_with_id
activated = refl

abbrev two : ActiveMap
two = record one { locked = true }

refused : activate_object genuid 4 one ≡ raised servant_already_active two
unfolding activate_object activate_object_T
refused = refl

deactivate_object-activated_example :
    (m'' : ActiveMap) × (deactivate_object (9 ∷ []) one ≡ returned tt m'')
    × ((j : List ℕ) → object_id_lookup j m''.objects ≡ object_id_lookup j empty.objects)
    × ((t : ℕ) → m''.private t ≡ empty.private t)
deactivate_object-activated_example =
    deactivate_object-activated (9 ∷ []) 4 empty one refl activated

abbrev automatic : ActiveMap
automatic =
    record (activate_object_T
      (record {
        object_id = 7 ∷ [];
        servant = none;
        refs = 0;
        use_cnt = 0;
        deactivate_do = false;
        has_ref = false;
      })
      4 (record empty { next_sysid = 7 })) { locked = false }

automatic_left : perform genuid (activate 4) empty ≡ some automatic
unfolding activate_object activate_object_T
automatic_left = refl

perform-IsSound_example : IsSound automatic
perform-IsSound_example =
    perform-IsSound genuid (activate 4) empty automatic empty-IsSound refl automatic_left
