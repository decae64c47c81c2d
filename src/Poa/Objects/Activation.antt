-- ===== src/Poa/Objects/Activation.antt =====
-- src/orb/poa/poa.c: what activating and deactivating an object leaves of the active object map.
use orbit.Base.{
  ℕ, ◌+◌, ◌%◌, ◌^◌, ◌≡◌, refl, ap, ◌∙◌, Bool, true, false, not, ◌&&◌, ◌||◌, Option, none, some,
  List, [], ◌∷◌, ◌==◌, if◌then◌else◌, ltb, arith,
}
use orbit.Poa.Objects.{
  Object, ActiveMap, Called, returned, raised, aborted, blocked, is_active, found_or_new,
  object_id_lookup, store, is_nil, unlink, set_private, new_object, activate_object_T, release,
  deactivate_object_T, lock, unlock, new_system_objid, activate_new, activate_object, servant_to_id,
  activate_object_with_id, deactivate_object,
}
use orbit.Poa.Objects.Tables.{lookup_id}
use orbit.Poa.Objects.Soundness.{
  serves, IsSound, moved, store-IsSound, activate_object_T-IsSound, retire-IsSound,
}

-- What a call leaves is sound.
abbrev pub Keeps : (A : Type 0) → Called A → Type 0
Keeps A (returned a m) = IsSound m
Keeps A (raised x m) = IsSound m
Keeps A aborted = Unit
Keeps A blocked = Unit

pub branch :
    (A : Type 0) (b : Bool) (x y : Called A)
    → (b ≡ true → Keeps A x)
    → (b ≡ false → Keeps A y)
    → Keeps A (if b then x else y)
branch A true x y hx hy = hx refl
branch A false x y hx hy = hy refl

is_nil_lem : (xs : List (List ℕ)) → is_nil xs ≡ true → xs ≡ []
is_nil_lem [] e = refl
is_nil_lem (x ∷ xs) e = cc

-- A test that a POA with UNIQUE_ID makes.
alone_if : (unique nil : Bool) → (unique && not nil) ≡ false → unique ≡ true → nil ≡ true
alone_if unique nil e u = ground arith

module _ (m : ActiveMap) (sound : IsSound m) where
  pub lock-IsSound : IsSound (lock m)
  lock-IsSound = moved m (lock m) refl refl refl sound

  module _ (genuid : ℕ → List ℕ)
      (fresh : object_id_lookup (new_system_objid genuid m) m.objects ≡ none) where
    activate_new-Keeps :
        (s : ℕ) → (m.unique_id ≡ true → m.private s ≡ []) → Keeps (List ℕ) (activate_new genuid s m)
    activate_new-Keeps s alone =
        let m1 = record m { next_sysid = (m.next_sysid + 1) % 2 ^ 32 } in
        let made = activate_object_T (new_object (new_system_objid genuid m)) s m1 in
        moved made (unlock made) refl refl refl (
          activate_object_T-IsSound (new_object (new_system_objid genuid m)) s m1
            (λ t. ap (serves t) fresh) alone (moved m m1 refl refl refl sound))

    pub activate_object-Keeps : (s : ℕ) → Keeps (List ℕ) (activate_object genuid s m)
    unfolding activate_object
    activate_object-Keeps s =
        branch (List ℕ) m.locked _ _ (λ e. tt)
          (λ e.
            branch (List ℕ) (not m.retain || not m.system_id) _ _ (λ f. lock-IsSound)
              (λ f.
                branch (List ℕ) (m.unique_id && not (is_nil (m.private s))) _ _ (λ g. lock-IsSound)
                  (λ g. activate_new-Keeps s (λ u.
                    is_nil_lem (m.private s) (alone_if m.unique_id (is_nil (m.private s)) g u)))))

    pub servant_to_id-Keeps : (s : ℕ) → Keeps (List ℕ) (servant_to_id genuid s m)
    unfolding servant_to_id
    servant_to_id-Keeps s =
        branch (List ℕ) m.locked _ _ (λ e. tt)
          (λ e.
            branch (List ℕ) (not (m.retain && (m.unique_id || m.implicit))) _ _ (λ f. lock-IsSound)
              (λ f.
                branch (List ℕ) (m.unique_id && not (is_nil (m.private s))) _ _
                  (λ g. head_known (m.private s))
                  (λ g.
                    branch (List ℕ) m.implicit _ _
                      (λ h.
                        branch (List ℕ) m.system_id _ _
                          (λ i. activate_new-Keeps s (λ u.
                            is_nil_lem (m.private s)
                              (alone_if m.unique_id (is_nil (m.private s)) g u)))
                          (λ i. tt))
                      (λ h. sound))))
      where
        head_known :
            (ids : List (List ℕ))
            → Keeps
                (List ℕ)
                (elim ids as (λ x. Called (List ℕ)) [ [] ↦ aborted | id ∷ more ↦ returned id m ])
        head_known [] = tt
        head_known (id ∷ more) = sound

  -- What is not active is served by nobody.
  idle_unserved : (t : ℕ) (o : Option Object) → is_active o ≡ false → serves t o ≡ 0
  idle_unserved t none e = refl
  idle_unserved t (some o) e = go o.servant e
    where
      go :
          (s : Option ℕ)
          → (elim s as (λ x. Bool) [ none ↦ false | some t ↦ true ]) ≡ false
          → (elim s as (λ x. ℕ) [ none ↦ 0 | some k ↦ if t == k then 1 else 0 ]) ≡ 0
      go none e = refl
      go (some k) e = cc

  pub activate_object_with_id-Keeps :
      (id : List ℕ) (s : ℕ) → Keeps (Unit {0}) (activate_object_with_id id s m)
  unfolding activate_object_with_id
  activate_object_with_id-Keeps id s =
      let pobj = object_id_lookup id m.objects in
      branch (Unit {0}) m.locked _ _ (λ e. tt)
        (λ e.
          branch (Unit {0}) (not m.retain) _ _ (λ f. lock-IsSound)
            (λ f.
              branch (Unit {0}) (is_active pobj) _ _ (λ g. sound)
                (λ g.
                  branch (Unit {0}) (m.unique_id && not (is_nil (m.private s))) _ _ (λ h. sound)
                    (λ h.
                      branch (Unit {0}) (ltb 0 (found_or_new id pobj).use_cnt) _ _ (λ i. tt)
                        (λ i.
                          activate_object_T-IsSound (found_or_new id pobj) s m
                            (λ t.
                              ap (λ x. serves t (object_id_lookup x m.objects)) (same_id pobj refl)
                              ∙ idle_unserved t pobj g)
                            (λ u.
                              is_nil_lem (m.private s)
                                (alone_if m.unique_id (is_nil (m.private s)) h u))
                            sound)))))
    where
      same_id :
          (o : Option Object)
          → object_id_lookup id m.objects ≡ o
          → (found_or_new id o).object_id ≡ id
      same_id none e = refl
      same_id (some o) e = lookup_id id m.objects o e

  either-IsSound :
      (b : Bool) (x y : ActiveMap)
      → (b ≡ true → IsSound x)
      → (b ≡ false → IsSound y)
      → IsSound (if b then x else y)
  either-IsSound true x y hx hy = hx refl
  either-IsSound false x y hx hy = hy refl

  deactivate_object_T-IsSound :
      (o : Object)
      → object_id_lookup o.object_id m.objects ≡ some o
      → IsSound (deactivate_object_T o m)
  unfolding deactivate_object_T
  deactivate_object_T-IsSound o here = go o.servant refl
    where
      go :
          (q : Option ℕ)
          → o.servant ≡ q
          → IsSound (elim q as (λ x. ActiveMap) [
            | none ↦ m
            | some s ↦
                if ltb 0 o.use_cnt
                then store (record o { deactivate_do = true }) m
                else release
                    (record o { servant = none; deactivate_do = false })
                    (set_private s (unlink o.object_id (m.private s)) m)
          ])
      go none e = sound
      go (some s) e =
          either-IsSound (ltb 0 o.use_cnt) _ _
            (λ used. store-IsSound m (record o { deactivate_do = true }) o here refl sound)
            (λ unused. retire-IsSound o s m here e sound)

  pub deactivate_object-Keeps : (id : List ℕ) → Keeps (Unit {0}) (deactivate_object id m)
  unfolding deactivate_object
  deactivate_object-Keeps id =
      branch (Unit {0}) m.locked _ _ (λ e. tt)
        (λ e.
          branch (Unit {0}) (not m.retain) _ _ (λ f. lock-IsSound)
            (λ f. go (object_id_lookup id m.objects) refl))
    where
      go :
          (q : Option Object)
          → object_id_lookup id m.objects ≡ q
          → Keeps (Unit {0}) (elim q as (λ x. Called (Unit {0})) [
            | none ↦ returned tt m
            | some o ↦ returned tt (deactivate_object_T o m)
          ])
      go none e = sound
      go (some o) e =
          deactivate_object_T-IsSound o
            (ap (λ x. object_id_lookup x m.objects) (lookup_id id m.objects o e) ∙ e)
