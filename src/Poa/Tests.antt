-- ===== src/Poa/Tests.antt =====
-- src/orb/poa at concrete adapters.
use orbit.Base.{ℕ, ◌≡◌, refl, Bool, true, false, none, some, List, [], ◌∷◌, ◌↔◌}
use orbit.Poa.Adapter.{
  PoaObject, Poa, handle_held_requests, deactivate, deactivate_now, deactivate_objects,
  deactivate_object, release_object, set_life_deactivate,
}
use orbit.Poa.Deactivation.{Retires, AllIdle, deactivate-Retires}

abbrev object : ℕ → PoaObject
object use_cnt = record {
  refs = 2;
  servant = some 5;
  use_cnt = use_cnt;
  need_post_invoke = false;
  do_etherealize = false;
  is_cleanup = false;
  deactivate_do = false;
  destroyed = false;
}

abbrev adapter : List ℕ → List PoaObject → Poa
adapter held objects = record {
  poa_id = 0;
  use_cnt = 0;
  held_requests = held;
  objects = objects;
  retain = true;
  do_etherealize = false;
  deactivate_do = false;
  destroy_do = false;
  deactivating = false;
  deactivated = false;
  answers = [];
}

abbrev idle_adapter : Poa
idle_adapter = adapter [] (object 0 ∷ [])

abbrev busy_adapter : Poa
busy_adapter = adapter [] (object 0 ∷ object 1 ∷ [])

deactivate-Retires_example :
    (poa' : Poa) × (done : Bool) × (deactivate true busy_adapter ≡ some (poa', done))
    × Retires busy_adapter.objects poa'.objects
    × ((done ≡ true) ↔ AllIdle busy_adapter.objects)
    × (poa'.deactivated ≡ done)
    × (poa'.deactivating ≡ false)
deactivate-Retires_example =
    deactivate-Retires true busy_adapter refl refl refl refl (refl, (refl, tt))

idle_done :
    deactivate true idle_adapter
    ≡ some (
      record (set_life_deactivate true idle_adapter) {
        objects = record (object 0) { refs = 1; servant = none } ∷ [];
        deactivated = true;
      },
      true,
    )
unfolding deactivate deactivate_now deactivate_objects deactivate_object release_object
    set_life_deactivate handle_held_requests
idle_done = refl
