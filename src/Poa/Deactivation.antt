-- ===== src/Poa/Deactivation.antt =====
-- src/orb/poa/poa.c: what the deactivation of a POA does to its objects.
use orbit.Base.{
  ℕ, suc, ◌<◌, ◌≤◌, ◌≡◌, refl, Bool, true, false, not, none, some, List, [], ◌∷◌, map, arith, ltb,
  leb, ◌⊎◌, inl, inr, Option-cases, Bool-cases, if◌then◌else◌, subst, sym, ap, ◌∙◌, ◌↔◌,
}
use orbit.Poa.Adapter.{
  PoaObject, Poa, handle_held_requests, deactivate, deactivate_now, deactivate_objects,
  set_life_deactivate, deactivate_object, release_object, any_inuse, keep_alive,
}

-- What becomes of an object that has a servant and that no call uses. With its last reference it
-- goes.
abbrev pub Idles : PoaObject → List PoaObject → List PoaObject → Type 0
Idles o os rest =
    ((o.refs ≤ 1) × (os ≡ rest))
    ⊎ ((o' : PoaObject) × (1 < o.refs)
        × (os ≡ o' ∷ rest)
        × (o'.servant ≡ none)
        × (suc o'.refs ≡ o.refs)
        × (o'.use_cnt ≡ o.use_cnt))

-- An object that is in use stays, with its servant, and will be deactivated after its last call.
abbrev pub Lingers : PoaObject → List PoaObject → List PoaObject → Type 0
Lingers o os rest =
    (o' : PoaObject) × (os ≡ o' ∷ rest)
    × (o'.servant ≡ o.servant)
    × (o'.refs ≡ o.refs)
    × (o'.use_cnt ≡ o.use_cnt)
    × (o'.deactivate_do ≡ true)
    × (o'.need_post_invoke ≡ true)

-- What becomes of one object, in front of what becomes of the others.
abbrev pub RetiresOne : PoaObject → List PoaObject → List PoaObject → Type 0
RetiresOne o os rest =
    ((o.servant ≡ none) × (os ≡ o ∷ rest))
    ⊎ ((s : ℕ) × (o.servant ≡ some s) × (o.use_cnt ≡ 0) × Idles o os rest)
    ⊎ ((s : ℕ) × (o.servant ≡ some s) × (0 < o.use_cnt) × Lingers o os rest)

-- The objects of a POA before its deactivation and after it.
abbrev pub Retires : List PoaObject → List PoaObject → Type 0
Retires [] os' = os' ≡ []
Retires (o ∷ os) os' = (rest : List PoaObject) × RetiresOne o os' rest × Retires os rest

abbrev pub AllPresent : List PoaObject → Type 0
AllPresent [] = Unit
AllPresent (o ∷ os) = (o.destroyed ≡ false) × AllPresent os

abbrev pub AllIdle : List PoaObject → Type 0
AllIdle [] = Unit
AllIdle (o ∷ os) = (o.use_cnt ≡ 0) × AllIdle os

kept_as :
    (d : PoaObject) (rest : List PoaObject)
    → d.destroyed ≡ false
    → (if d.destroyed then rest else d ∷ rest) ≡ d ∷ rest
kept_as d rest h = ap (λ b. if b then rest else d ∷ rest) h

dropped :
    (d : PoaObject) (rest : List PoaObject)
    → d.destroyed ≡ true
    → (if d.destroyed then rest else d ∷ rest) ≡ rest
dropped d rest h = ap (λ b. if b then rest else d ∷ rest) h

module _ (etherealize : Bool) (o : PoaObject) where
  left_alone : o.servant ≡ none → deactivate_object etherealize true o ≡ o
  unfolding deactivate_object
  left_alone h = ground arith

  left_busy :
      (s : ℕ)
      → o.servant ≡ some s
      → ltb 0 o.use_cnt ≡ true
      → (rest : List PoaObject) → o.destroyed ≡ false
      → Lingers o
          (let d = deactivate_object etherealize true o in if d.destroyed then rest else d ∷ rest)
          rest
  unfolding deactivate_object
  left_busy s h busy rest present = (
    deactivate_object etherealize true o,
    kept_as _ rest (ground arith),
    ground arith,
    ground arith,
    ground arith,
    ground arith,
    ground arith,
  )

  left_idle :
      (s : ℕ)
      → o.servant ≡ some s
      → ltb 0 o.use_cnt ≡ false
      → (rest : List PoaObject) → o.destroyed ≡ false
      → Idles o
          (let d = deactivate_object etherealize true o in if d.destroyed then rest else d ∷ rest)
          rest
  unfolding deactivate_object release_object
  left_idle s h idle rest present = elim (Bool-cases (leb o.refs 1)) [
    | inl last ↦ inl (ground arith, dropped _ rest (ground arith))
    | inr more ↦ inr (
      deactivate_object etherealize true o,
      ground arith,
      kept_as _ rest (ground arith),
      ground arith,
      ground arith,
      ground arith,
    )
  ]

  kept_lem :
      (rest : List PoaObject)
      → o.destroyed ≡ false
      → RetiresOne o
          (let d = deactivate_object etherealize true o in if d.destroyed then rest else d ∷ rest)
          rest
  kept_lem rest present = elim (Option-cases o.servant) [
    | inl h ↦ inl (
      h,
      ap (λ d. if d.destroyed then rest else d ∷ rest) (left_alone h) ∙ kept_as o rest present,
    )
    | inr (s, h) ↦ elim (Bool-cases (ltb 0 o.use_cnt)) [
      | inl busy ↦ inr (inr (s, h, ground arith, left_busy s h busy rest present))
      | inr idle ↦ inr (inl (s, h, ground arith, left_idle s h idle rest present))
    ]
  ]

cleaned-Retires :
    (etherealize : Bool) (os : List PoaObject)
    → AllPresent os
    → Retires os (keep_alive (map (deactivate_object etherealize true) os))
cleaned-Retires etherealize [] h = refl
cleaned-Retires etherealize (o ∷ os) (present, others) = (
  keep_alive (map (deactivate_object etherealize true) os),
  kept_lem etherealize o _ present,
  cleaned-Retires etherealize os others,
)

any_inuse-AllIdle : (os : List PoaObject) → (not (any_inuse os) ≡ true) ↔ AllIdle os
any_inuse-AllIdle [] = (λ h. tt, λ h. refl)
any_inuse-AllIdle (o ∷ os) = (
  λ h. (ground arith, (any_inuse-AllIdle os).0 (ground arith)),
  λ (idle, others). ground (arith, idle, (any_inuse-AllIdle os).1 others),
)

-- The POA as the traversal finds it.
abbrev begun : Bool → Poa → Poa
begun etherealize poa = record (set_life_deactivate etherealize poa) { deactivating = true }

deactivate_lem :
    (etherealize : Bool) (poa : Poa)
    → poa.deactivated ≡ false
    → poa.deactivating ≡ false
    → poa.held_requests ≡ []
    → deactivate etherealize poa ≡ some (deactivate_objects (begun etherealize poa))
unfolding deactivate deactivate_now handle_held_requests set_life_deactivate
deactivate_lem etherealize poa h1 h2 none_held = ground arith

deactivate_objects_lem :
    (poa : Poa)
    → poa.retain ≡ true
    → poa.deactivated ≡ false
    → ((deactivate_objects poa).0.objects
        ≡ keep_alive (map (deactivate_object poa.do_etherealize true) poa.objects))
      × ((deactivate_objects poa).1 ≡ not (any_inuse poa.objects))
      × ((deactivate_objects poa).0.deactivated ≡ (deactivate_objects poa).1)
unfolding deactivate_objects
deactivate_objects_lem poa retains h = rw (retains, h) (refl, refl, refl)

-- Deactivating a POA that retains its servants, holds no requests, is neither deactivated nor
-- being deactivated, and has no destroyed object in its map, comes back, and the deactivation is
-- no longer under way. An object without a servant stays as it is; one that no call uses loses its
-- servant and one reference, and leaves the map with its last one; one that is in use stays with
-- its servant and references and is marked to be deactivated after its last call. The others keep
-- their order. The call reports that it is done, and the POA is deactivated, exactly when no call
-- uses an object.
pub deactivate-Retires :
    (etherealize : Bool) (poa : Poa)
    → poa.retain ≡ true
    → poa.deactivated ≡ false
    → poa.deactivating ≡ false
    → poa.held_requests ≡ []
    → AllPresent poa.objects
    → (poa' : Poa) × (done : Bool) × (deactivate etherealize poa ≡ some (poa', done))
      × Retires poa.objects poa'.objects
      × ((done ≡ true) ↔ AllIdle poa.objects)
      × (poa'.deactivated ≡ done)
      × (poa'.deactivating ≡ false)
unfolding deactivate_objects set_life_deactivate
deactivate-Retires etherealize poa retains h1 h2 none_held present =
    let p = begun etherealize poa in
    let (objects, done, reported) = deactivate_objects_lem p retains h1 in
    (
      (deactivate_objects p).0,
      (deactivate_objects p).1,
      deactivate_lem etherealize poa h1 h2 none_held,
      subst (Retires poa.objects) (sym objects)
          (cleaned-Retires p.do_etherealize poa.objects present),
      subst (λ b. (b ≡ true) ↔ AllIdle poa.objects) (sym done) (any_inuse-AllIdle poa.objects),
      reported,
      refl,
    )
