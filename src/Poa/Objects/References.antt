-- ===== src/Poa/Objects/References.antt =====
-- src/orb/poa/poa.c: what making references and looking up objects leaves of the active object map.
use orbit.Base.{
  ℕ, ◌+◌, ◌%◌, ◌^◌, ◌≡◌, refl, ap, ◌∙◌, true, not, Option, none, some, List, if◌then◌else◌,
  same_text_self,
}
use orbit.Poa.Objects.{
  Object, ActiveMap, Called, returned, raised, object_not_active, object_id_lookup, store,
  new_object, new_system_objid, obj_to_ref, create_reference_with_id, id_to_servant,
  create_reference, id_to_reference,
}
use orbit.Poa.Objects.Tables.{lookup_id, lookup-store}
use orbit.Poa.Objects.Soundness.{serves, IsSound, moved, store-IsSound, store_served}
use orbit.Poa.Objects.Activation.{Keeps, branch, lock-IsSound}

module _ (m : ActiveMap) (sound : IsSound m) where
  pub create_reference_with_id-Keeps :
      (id : List ℕ) → Keeps (List ℕ) (create_reference_with_id id m)
  unfolding create_reference_with_id obj_to_ref
  create_reference_with_id-Keeps id =
      branch (List ℕ) m.locked _ _ (λ e. tt) (λ e. go (object_id_lookup id m.objects) refl)
    where
      go :
          (q : Option Object)
          → object_id_lookup id m.objects ≡ q
          → Keeps (List ℕ) (
              obj_to_ref q
                (elim q as (λ x. ActiveMap) [ none ↦ store (new_object id) m | some o ↦ m ]))
      go none e = tt
      go (some o) e =
          branch (List ℕ) o.has_ref _ _ (λ f. tt)
            (λ f.
              store-IsSound m (record o { has_ref = true; refs = o.refs + 1 }) o
                (ap (λ x. object_id_lookup x m.objects) (lookup_id id m.objects o e) ∙ e) refl
                sound)

  -- A reference is made to an object that the map has.
  obj_to_ref-Keeps :
      (o : Object)
      → object_id_lookup o.object_id m.objects ≡ some o
      → Keeps (List ℕ) (obj_to_ref (some o) m)
  unfolding obj_to_ref
  obj_to_ref-Keeps o here =
      branch (List ℕ) o.has_ref _ _ (λ f. tt)
        (λ f. store-IsSound m (record o { has_ref = true; refs = o.refs + 1 }) o here refl sound)

  pub id_to_reference-Keeps : (id : List ℕ) → Keeps (List ℕ) (id_to_reference id m)
  unfolding id_to_reference
  id_to_reference-Keeps id =
      branch (List ℕ) m.locked _ _ (λ e. tt)
        (λ e.
          branch (List ℕ) (not m.retain) _ _ (λ f. lock-IsSound m sound)
            (λ f. go (object_id_lookup id m.objects) refl))
    where
      inner :
          (o : Object) (q : Option ℕ)
          → object_id_lookup o.object_id m.objects ≡ some o
          → Keeps (List ℕ) (elim q as (λ x. Called (List ℕ)) [
            | none ↦ raised object_not_active m
            | some s ↦ if o.has_ref then returned o.object_id m else obj_to_ref (some o) m
          ])
      inner o none here = sound
      inner o (some s) here =
          branch (List ℕ) o.has_ref _ _ (λ f. sound) (λ f. obj_to_ref-Keeps o here)

      go :
          (q : Option Object)
          → object_id_lookup id m.objects ≡ q
          → Keeps (List ℕ) (elim q as (λ x. Called (List ℕ)) [
            | none ↦ raised object_not_active m
            | some o ↦ elim o.servant [
              | none ↦ raised object_not_active m
              | some s ↦ if o.has_ref then returned o.object_id m else obj_to_ref (some o) m
            ]
          ])
      go none e = sound
      go (some o) e =
          inner o o.servant
            (ap (λ x. object_id_lookup x m.objects) (lookup_id id m.objects o e) ∙ e)

  pub id_to_servant-Keeps : (id : List ℕ) → Keeps (Option ℕ) (id_to_servant id m)
  unfolding id_to_servant
  id_to_servant-Keeps id =
      branch (Option ℕ) m.locked _ _ (λ e. tt)
        (λ e.
          branch (Option ℕ) (not m.retain) _ _ (λ f. lock-IsSound m sound)
            (λ f. go (object_id_lookup id m.objects)))
    where
      inner :
          (q : Option ℕ)
          → Keeps (Option ℕ) (elim q as (λ x. Called (Option ℕ)) [
            | none ↦ raised object_not_active m
            | some s ↦ returned none m
          ])
      inner none = sound
      inner (some s) = sound

      go :
          (q : Option Object)
          → Keeps (Option ℕ) (elim q as (λ x. Called (Option ℕ)) [
            | none ↦ raised object_not_active m
            | some o ↦ elim o.servant [
              | none ↦ raised object_not_active m
              | some s ↦ returned none m
            ]
          ])
      go none = sound
      go (some o) = inner o.servant

pub create_reference-Keeps :
    (m : ActiveMap) (sound : IsSound m) (genuid : ℕ → List ℕ)
    → object_id_lookup (new_system_objid genuid m) m.objects ≡ none
    → Keeps (List ℕ) (create_reference genuid m)
unfolding create_reference
create_reference-Keeps m sound genuid fresh =
    let o = new_object (new_system_objid genuid m) in
    let m1 = record m { next_sysid = (m.next_sysid + 1) % 2 ^ 32 } in
    branch (List ℕ) m.locked _ _ (λ e. tt)
      (λ e.
        branch (List ℕ) (not m.system_id) _ _ (λ f. lock-IsSound m sound)
          (λ f.
            obj_to_ref-Keeps (store o m1)
              (store_served m1 o (λ s. ap (serves s) fresh) (moved m m1 refl refl refl sound)) o
              (lookup-store o m1 o.object_id
                ∙ ap (λ b. if b then some o else object_id_lookup o.object_id m1.objects)
                    (same_text_self o.object_id))))
