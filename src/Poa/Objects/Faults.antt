-- ===== src/Poa/Objects/Faults.antt =====
-- src/orb/poa/poa.c: activation from call to call, and where the calls of a POA go wrong.
use orbit.Base.{
  ℕ, ◌+◌, ◌≡◌, ◌≢◌, refl, sym, ap, ◌∙◌, subst, Bool, true, false, not, ◌&&◌, ◌||◌, Option, none,
  some, List, ◌∷◌, ◌==◌, if◌then◌else◌, ltb, arith, Bool-cases, inl, inr, same_text, same_text_self,
  same_text_lem,
}
use orbit.Poa.Objects.{
  Object, ActiveMap, Called, Exception, returned, raised, aborted, blocked, is_active, found_or_new,
  object_not_active, object_id_lookup, store, is_nil, unlink, new_object, activate_object_T,
  release, deactivate_object_T, activate_object, servant_to_id, activate_object_with_id,
  deactivate_object, obj_to_ref, create_reference_with_id, id_to_servant, create_reference,
  id_to_reference, Call, activate, to_id, activate_with_id, deactivate, reference_with, to_servant,
  to_reference, new_reference, perform,
}
use orbit.Poa.Objects.Soundness.{same_number}
use orbit.Poa.Objects.Tables.{lookup_id, lookup-store, lookup-without, lookup-without_self}

not_taken :
    (A : Type 0) (b : Bool) (x y z : Called A)
    → x ≢ z
    → (if b then x else y) ≡ z
    → (b ≡ false) × (y ≡ z)
not_taken A true x y z differ h = absurd (differ h)
not_taken A false x y z differ h = (refl, h)

skip : (A : Type 0) (b : Bool) (x y : A) → b ≡ false → (if b then x else y) ≡ y
skip A true x y e = cc
skip A false x y e = refl

raised_not_returned :
    (A : Type 0) (x : Exception) (m m' : ActiveMap) (a : A) → raised x m ≢ returned a m'
raised_not_returned A x m m' a e = cc

blocked_not_returned : (A : Type 0) (m' : ActiveMap) (a : A) → blocked ≢ returned a m'
blocked_not_returned A m' a e = cc

aborted_not_returned : (A : Type 0) (m' : ActiveMap) (a : A) → aborted ≢ returned a m'
aborted_not_returned A m' a e = cc

-- What it takes to activate an object with an id.
record Activated (id : List ℕ) (s : ℕ) (m m' : ActiveMap) : Type 0 where
  free : m.locked ≡ false
  retains : m.retain ≡ true
  idle : is_active (object_id_lookup id m.objects) ≡ false
  made : m' ≡ activate_object_T (found_or_new id (object_id_lookup id m.objects)) s m

left_map : {A : Type 0} → ActiveMap → Called A → ActiveMap
left_map m (returned a n) = n
left_map m _ = m

not-false : (b : Bool) → not b ≡ false → b ≡ true
not-false b e = ground arith

activated :
    (id : List ℕ) (s : ℕ) (m m' : ActiveMap)
    → activate_object_with_id id s m ≡ returned tt m'
    → Activated id s m m'
unfolding activate_object_with_id left_map
activated id s m m' h =
    let (free, h1) =
      not_taken (Unit {0}) m.locked _ _ _ (blocked_not_returned (Unit {0}) m' tt) h in
    let (retains, h2) =
      not_taken (Unit {0}) (not m.retain) _ _ _ (raised_not_returned (Unit {0}) _ _ m' tt) h1 in
    let (idle, h3) =
      not_taken (Unit {0}) (is_active (object_id_lookup id m.objects)) _ _ _
        (raised_not_returned (Unit {0}) _ _ m' tt) h2 in
    let (alone, h4) =
      not_taken (Unit {0}) (m.unique_id && not (is_nil (m.private s))) _ _ _
        (raised_not_returned (Unit {0}) _ _ m' tt) h3 in
    let (unused, h5) =
      not_taken (Unit {0}) (ltb 0 (found_or_new id (object_id_lookup id m.objects)).use_cnt) _ _ _
        (aborted_not_returned (Unit {0}) m' tt) h4 in
    record {
      free = free;
      retains = not-false m.retain retains;
      idle = idle;
      made = sym (ap (left_map m) h5);
    }

-- The object that has been activated, and what has become of the map.
module _ (o : Object) (s : ℕ) (m : ActiveMap) where
  abbrev active : Object
  active = record o { servant = some s; refs = o.refs + 1 }

  found_active : object_id_lookup o.object_id (activate_object_T o s m).objects ≡ some active
  unfolding activate_object_T
  found_active =
      lookup-store active m o.object_id
      ∙ ap (λ b. if b then some active else object_id_lookup o.object_id m.objects)
          (same_text_self o.object_id)

  found_others :
      (j : List ℕ)
      → same_text o.object_id j ≡ false
      → object_id_lookup j (activate_object_T o s m).objects ≡ object_id_lookup j m.objects
  unfolding activate_object_T
  found_others j f =
      lookup-store active m j ∙ ap (λ b. if b then some active else object_id_lookup j m.objects) f

found_or_new_id :
    (id : List ℕ) (m : ActiveMap) (q : Option Object)
    → object_id_lookup id m.objects ≡ q
    → (found_or_new id q).object_id ≡ id
found_or_new_id id m none e = refl
found_or_new_id id m (some o) e = lookup_id id m.objects o e

-- Activating an object with an id returns only where the id was not active; then it is served by the
-- servant, and no other id is touched.
pub activate_object_with_id-Serves :
    (id : List ℕ) (s : ℕ) (m m' : ActiveMap)
    → activate_object_with_id id s m ≡ returned tt m'
    → (is_active (object_id_lookup id m.objects) ≡ false)
      × ((o : Object) × (object_id_lookup id m'.objects ≡ some o) × (o.servant ≡ some s))
      × ((j : List ℕ)
          → same_text id j ≡ false
          → object_id_lookup j m'.objects ≡ object_id_lookup j m.objects)
activate_object_with_id-Serves id s m m' h =
    let a = activated id s m m' h in
    let o = found_or_new id (object_id_lookup id m.objects) in
    let same = found_or_new_id id m (object_id_lookup id m.objects) refl in
    (
      a.idle,
      (
        active o s m,
        ap (λ x. object_id_lookup id x.objects) a.made
            ∙ subst
                (λ x. object_id_lookup x (activate_object_T o s m).objects ≡ some (active o s m))
                same (found_active o s m),
        refl,
      ),
      λ j f.
          ap (λ x. object_id_lookup j x.objects) a.made
          ∙ found_others o s m j (subst (λ x. same_text x j ≡ false) (sym same) f),
    )

-- What `activate_object_T` leaves alone.
kept_flags :
    (o : Object) (s : ℕ) (m : ActiveMap)
    → ((activate_object_T o s m).locked ≡ m.locked) × ((activate_object_T o s m).retain ≡ m.retain)
unfolding activate_object_T
kept_flags o s m = (refl, refl)

open_and_retains :
    (id : List ℕ) (s : ℕ) (m m' : ActiveMap)
    → Activated id s m m'
    → (m'.locked ≡ false) × (m'.retain ≡ true)
open_and_retains id s m m' a =
    let (l, r) = kept_flags (found_or_new id (object_id_lookup id m.objects)) s m in
    (ap (λ x. x.locked) a.made ∙ l ∙ a.free, ap (λ x. x.retain) a.made ∙ r ∙ a.retains)

id_to_servant_found :
    (id : List ℕ) (m : ActiveMap) (o : Object) (s : ℕ)
    → m.locked ≡ false
    → m.retain ≡ true
    → object_id_lookup id m.objects ≡ some o
    → o.servant ≡ some s
    → id_to_servant id m ≡ returned none m
unfolding id_to_servant
id_to_servant_found id m o s free retains found serving =
    skip _ m.locked _ _ free
    ∙ skip _ (not m.retain) _ _ (ap not retains)
    ∙ ap
        (λ q. elim q as (λ x. Called (Option ℕ)) [
          | none ↦ raised object_not_active m
          | some x ↦ elim x.servant [ none ↦ raised object_not_active m | some k ↦ returned none m ]
        ])
        found
    ∙ ap
        (λ q. elim q as (λ x. Called (Option ℕ)) [
          | none ↦ raised object_not_active m
          | some k ↦ returned none m
        ])
        serving

-- After an object has been activated with an id, `id_to_servant` of that id returns no servant and
-- raises no exception.
pub id_to_servant-activated :
    (id : List ℕ) (s : ℕ) (m m' : ActiveMap)
    → activate_object_with_id id s m ≡ returned tt m'
    → id_to_servant id m' ≡ returned none m'
id_to_servant-activated id s m m' h =
    let (free, retains) = open_and_retains id s m m' (activated id s m m' h) in
    let (_, (o, found, serving), _) = activate_object_with_id-Serves id s m m' h in
    id_to_servant_found id m' o s free retains found serving

deactivate_object_found :
    (id : List ℕ) (m : ActiveMap) (o : Object)
    → m.locked ≡ false
    → m.retain ≡ true
    → object_id_lookup id m.objects ≡ some o
    → deactivate_object id m ≡ returned tt (deactivate_object_T o m)
unfolding deactivate_object
deactivate_object_found id m o free retains found =
    skip _ m.locked _ _ free
    ∙ skip _ (not m.retain) _ _ (ap not retains)
    ∙ ap
        (λ q. elim q as (λ x. Called (Unit {0})) [
          | none ↦ returned tt m
          | some x ↦ returned tt (deactivate_object_T x m)
        ])
        found

-- A new object that is deactivated again.
module _ (id : List ℕ) (s : ℕ) (m : ActiveMap) where
  abbrev once : ActiveMap
  once = activate_object_T (new_object id) s m

  abbrev again : ActiveMap
  again = deactivate_object_T (active (new_object id) s m) once

  again_objects :
      (j : List ℕ)
      → object_id_lookup id m.objects ≡ none
      → object_id_lookup j again.objects ≡ object_id_lookup j m.objects
  unfolding activate_object_T deactivate_object_T release
  again_objects j unknown = elim (Bool-cases (same_text id j)) [
    | inl e ↦
        subst (λ x. object_id_lookup x again.objects ≡ object_id_lookup x m.objects)
          (same_text_lem id j e) (lookup-without_self id once.objects ∙ sym unknown)
    | inr f ↦ lookup-without id j once.objects f ∙ found_others (new_object id) s m j f
  ]

  again_private : (t : ℕ) → again.private t ≡ m.private t
  unfolding activate_object_T deactivate_object_T release
  again_private t = elim (Bool-cases (t == s)) [
    | inl e ↦
        ap (λ b. if b then unlink id (once.private s) else once.private t) e
        ∙ ap (λ b. unlink id (if b then id ∷ m.private s else m.private s))
            (let self : (s == s) ≡ true = ground arith in self)
        ∙ ap (λ b. if b then m.private s else id ∷ unlink id (m.private s)) (same_text_self id)
        ∙ sym (ap m.private (same_number t s e))
    | inr f ↦ rw (f) refl
  ]

-- When an id that is not in the map has been activated with a servant, deactivating it returns,
-- and leaves every entry of the map, and the list of every servant, as they were before.
pub deactivate_object-activated :
    (id : List ℕ) (s : ℕ) (m m' : ActiveMap)
    → object_id_lookup id m.objects ≡ none
    → activate_object_with_id id s m ≡ returned tt m'
    → (m'' : ActiveMap) × (deactivate_object id m' ≡ returned tt m'')
      × ((j : List ℕ) → object_id_lookup j m''.objects ≡ object_id_lookup j m.objects)
      × ((t : ℕ) → m''.private t ≡ m.private t)
deactivate_object-activated id s m m' unknown h =
    let a = activated id s m m' h in
    let made : m' ≡ once id s m =
      a.made ∙ ap (λ q. activate_object_T (found_or_new id q) s m) unknown in
    let (free, retains) = open_and_retains id s m m' a in
    (
      again id s m,
      subst (λ x. deactivate_object id x ≡ returned tt (again id s m)) (sym made)
          (deactivate_object_found id (once id s m) (active (new_object id) s m)
            (sym (ap (λ x. x.locked) made) ∙ free) (sym (ap (λ x. x.retain) made) ∙ retains)
            (found_active (new_object id) s m)),
      λ j. again_objects id s m j unknown,
      again_private id s m,
    )

-- Every call waits for a lock that is held.
locked_blocks :
    (genuid : ℕ → List ℕ) (c : Call) (m : ActiveMap) → m.locked ≡ true → perform genuid c m ≡ none
unfolding activate_object servant_to_id activate_object_with_id deactivate_object
    create_reference_with_id id_to_servant create_reference id_to_reference
locked_blocks genuid (activate s) m h = rw (activate_object, h) refl
locked_blocks genuid (to_id s) m h = rw (servant_to_id, h) refl
locked_blocks genuid (activate_with_id id s) m h = rw (activate_object_with_id, h) refl
locked_blocks genuid (deactivate id) m h = rw (deactivate_object, h) refl
locked_blocks genuid (reference_with id) m h = rw (create_reference_with_id, h) refl
locked_blocks genuid (to_servant id) m h = rw (id_to_servant, h) refl
locked_blocks genuid (to_reference id) m h = rw (id_to_reference, h) refl
locked_blocks genuid new_reference m h = rw (create_reference, h) refl

-- An exception is raised with the lock held.
abbrev HeldIfRaised : Called (List ℕ) → Type 0
HeldIfRaised (returned a m) = Unit
HeldIfRaised (raised x m) = m.locked ≡ true
HeldIfRaised aborted = Unit
HeldIfRaised blocked = Unit

held_branch :
    (b : Bool) (x y : Called (List ℕ))
    → HeldIfRaised x
    → HeldIfRaised y
    → HeldIfRaised (if b then x else y)
held_branch true x y hx hy = hx
held_branch false x y hx hy = hy

activate_object-HeldIfRaised :
    (genuid : ℕ → List ℕ) (s : ℕ) (m : ActiveMap) → HeldIfRaised (activate_object genuid s m)
unfolding activate_object
activate_object-HeldIfRaised genuid s m = held_branch m.locked _ _ tt (
    held_branch (not m.retain || not m.system_id) _ _ refl
      (held_branch (m.unique_id && not (is_nil (m.private s))) _ _ refl tt))

-- When `activate_object` raises an exception, the lock of the POA stays held, so that no later
-- call of the POA comes back.
pub activate_object-raised :
    (genuid : ℕ → List ℕ) (s : ℕ) (c : Call) (x : Exception) (m m' : ActiveMap)
    → activate_object genuid s m ≡ raised x m'
    → perform genuid c m' ≡ none
activate_object-raised genuid s c x m m' h =
    locked_blocks genuid c m' (subst HeldIfRaised h (activate_object-HeldIfRaised genuid s m))

-- A reference with an id that is not in the map cannot be made.
pub create_reference_with_id-unknown :
    (id : List ℕ) (m : ActiveMap)
    → m.locked ≡ false
    → object_id_lookup id m.objects ≡ none
    → create_reference_with_id id m ≡ aborted
unfolding create_reference_with_id obj_to_ref
create_reference_with_id-unknown id m free unknown =
    skip _ m.locked _ _ free
    ∙ ap
        (λ q.
          obj_to_ref q (elim q as (λ x. ActiveMap) [ none ↦ store (new_object id) m | some o ↦ m ]))
        unknown
