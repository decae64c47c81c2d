-- ===== src/Name/Server/Resolving.antt =====
-- src/services/name/orbit-name-server.c: what `resolve` finds after `bind` and `unbind`.
use orbit.Base.{
  ℕ, ◌≡◌, refl, sym, ap, ◌∙◌, subst, Bool, true, false, Option, none, some, List, [], ◌∷◌, ◌==◌,
  if◌then◌else◌, arith, Bool-cases, Option-cases, inl, inr,
}
use orbit.Name.{Component, Name}
use orbit.Name.Server.{
  Object, context, Registered, World, Answer, nothing, object, raised, Raised, already_bound,
  is_none, not_found, missing_node, Op, bind, unbind, resolve, same_component, lookup, remove, put,
  non_existent, bind_last, unbind_last, resolve_last, last, walk,
}
use orbit.Name.Server.Paths.{
  same_component_lem, same_component_self, lookup-remove, lookup-remove_self, LeadsTo,
  LeadsTo-exists,
}
use orbit.Name.Server.Walking.{Ends, walk-Ends, walk_last, walk_missing, walk_on}

abbrev pub IsRaised : Answer → Type 0
IsRaised nothing = ⊥
IsRaised (object o) = ⊥
IsRaised (raised x) = Unit

pub put_here :
    (w : World) (k i : ℕ) (qs : List Registered) → (i == k) ≡ true → (put w k qs).names i ≡ some qs
put_here w k i qs e = rw (e) refl

pub put_there :
    (w : World) (k i : ℕ) (qs : List Registered)
    → (i == k) ≡ false
    → (put w k qs).names i ≡ w.names i
put_there w k i qs e = rw (e) refl

pub same_number : (i k : ℕ) → (i == k) ≡ true → i ≡ k
same_number i k e = ground arith

pub some_inj : {A : Type 0} (a b : A) → some a ≡ some b → a ≡ b
some_inj a b e = cc

nothing_not_raised : {x : Raised} → nothing ≡ raised x → ⊥
nothing_not_raised e = cc

no_names : (o : Option (List Registered)) → is_none o ≡ true → o ≡ none
no_names none e = refl
no_names (some rs) e = cc

-- A way that the context at its end does not lie on twice, by a name that is found, stays.
LeadsTo-put :
    (n : Name) (w : World) (i k : ℕ) (c : Component) (rs qs : List Registered)
    → w.names k ≡ some rs
    → ((d : Component) → same_component c d ≡ false → lookup d qs ≡ lookup d rs)
    → ((r : Registered) (j : ℕ) → lookup c rs ≡ some r → r.obj ≡ context j → w.names j ≡ none)
    → LeadsTo w i n k c
    → LeadsTo (put w k qs) i n k c
LeadsTo-put [] w i k c rs qs at same blocked l = l
LeadsTo-put (d ∷ []) w i k c rs qs at same blocked l = l
LeadsTo-put (d ∷ e ∷ n) w i k c rs qs at same blocked (ps, r, j, here, found, there, leads) =
    let more = LeadsTo-put (e ∷ n) w j k c rs qs at same blocked leads in
    elim (Bool-cases (i == k)) [
      | inr off ↦ (ps, r, j, put_there w k i qs off ∙ here, found, there, more)
      | inl on ↦
          let table : ps ≡ rs = some_inj ps rs (sym here ∙ ap w.names (same_number i k on) ∙ at) in
          let in_table : lookup d rs ≡ some r = ap (lookup d) (sym table) ∙ found in
          elim (Bool-cases (same_component c d)) [
            | inl f ↦
                let gone_too : w.names j ≡ none =
                  blocked r j (ap (λ x. lookup x rs) (same_component_lem c d f) ∙ in_table) there in
                absurd (LeadsTo-exists w j (e ∷ n) k c rs leads at gone_too)
            | inr f ↦ (qs, r, j, put_here w k i qs on, same d f ∙ in_table, there, more)
          ]
    ]

module _ (gone : ℕ → Bool) (ask : ℕ → Op → Name → Answer) where
  resolve_last_found :
      (w : World) (i : ℕ) (rs : List Registered) (c : Component) (r : Registered)
      → lookup c rs ≡ some r
      → non_existent gone ask w r.obj ≡ false
      → resolve_last gone ask w i rs c ≡ (w, object r.obj)
  unfolding resolve_last
  resolve_last_found w i rs c r found alive = rw (resolve_last, found, alive) refl

  resolve_last_missing :
      (w : World) (i : ℕ) (rs : List Registered) (c : Component)
      → lookup c rs ≡ none
      → resolve_last gone ask w i rs c ≡ (w, raised (not_found missing_node (c ∷ [])))
  unfolding resolve_last
  resolve_last_missing w i rs c missing = rw (resolve_last, missing) refl

  resolve_led :
      (n : Name) (w : World) (i k : ℕ) (c : Component) (rs : List Registered) (r : Registered)
      → w.names k ≡ some rs
      → lookup c rs ≡ some r
      → non_existent gone ask w r.obj ≡ false
      → LeadsTo w i n k c
      → walk gone ask resolve w i n ≡ (w, object r.obj)
  resolve_led [] w i k c rs r at found alive l = elim l [ ]
  resolve_led (d ∷ []) w i k c rs r at found alive (same, same_name) =
      walk_last gone ask resolve w i d rs (ap w.names same ∙ at)
      ∙ resolve_last_found w i rs d r (ap (λ x. lookup x rs) same_name ∙ found) alive
  resolve_led (d ∷ e ∷ n) w i k c rs r at found alive (ps, q, j, here, hit, there, leads) =
      walk_on gone ask resolve w i d e n ps here q j hit refl there
      ∙ resolve_led (e ∷ n) w j k c rs r at found alive leads

  resolve_removed :
      (n : Name) (w : World) (i k : ℕ) (c : Component) (rs : List Registered)
      → w.names k ≡ some rs
      → LeadsTo w i n k c
      → (rest : Name) × (walk gone ask resolve (put w k (remove c rs)) i n
          ≡ (put w k (remove c rs), raised (not_found missing_node rest)))
  resolve_removed [] w i k c rs at l = elim l [ ]
  resolve_removed (d ∷ []) w i k c rs at (same, same_name) = (
    d ∷ [],
    walk_last gone ask resolve (put w k (remove c rs)) i d (remove c rs)
          (put_here w k i (remove c rs) (ground arith))
        ∙ resolve_last_missing (put w k (remove c rs)) i (remove c rs) d
            (ap (λ x. lookup x (remove c rs)) same_name ∙ lookup-remove_self c rs),
  )
  resolve_removed (d ∷ e ∷ n) w i k c rs at (ps, r, j, here, found, there, leads) =
      let w' = put w k (remove c rs) in
      let (rest, more) = resolve_removed (e ∷ n) w j k c rs at leads in
      elim (Bool-cases (i == k)) [
        | inr off ↦ (
          rest,
          walk_on gone ask resolve w' i d e n ps (put_there w k i (remove c rs) off ∙ here) r j
                found refl there
              ∙ more,
        )
        | inl on ↦
            let table : ps ≡ rs =
              some_inj ps rs (sym here ∙ ap w.names (same_number i k on) ∙ at) in
            let at' = put_here w k i (remove c rs) on in
            elim (Bool-cases (same_component c d)) [
              | inl e' ↦ (
                d ∷ e ∷ n,
                walk_missing gone ask resolve w' i d e n (remove c rs) at' (
                    ap (λ x. lookup x (remove c rs)) (sym (same_component_lem c d e'))
                    ∙ lookup-remove_self c rs),
              )
              | inr f ↦ (
                rest,
                walk_on gone ask resolve w' i d e n (remove c rs) at' r j
                      (lookup-remove c d rs f ∙ ap (lookup d) (sym table) ∙ found) refl there
                    ∙ more,
              )
            ]
      ]

  module _ (sub : Bool) (o : Object) (w : World) (k : ℕ) (rs : List Registered)
      (c : Component) where
    abbrev bound : World × Answer
    bound = (put w k (record { nc = c; obj = o; is_subctx = sub } ∷ remove c rs), nothing)

    bind_last_free : lookup c rs ≡ none → bind_last gone ask sub o w k rs c ≡ bound
    unfolding bind_last
    bind_last_free e = rw (bind_last, e) refl

    bind_last-bound :
        (r : Registered)
        → lookup c rs ≡ some r
        → bind_last gone ask sub o w k rs c
          ≡ (if non_existent gone ask w r.obj then bound else (w, raised already_bound))
    unfolding bind_last
    bind_last-bound r e = rw (bind_last, e) refl

    -- What it takes to bind: the last component is free, or its object has ceased to exist.
    bind_last_nothing :
        (w' : World)
        → bind_last gone ask sub o w k rs c ≡ (w', nothing)
        → (w' ≡ bound.0)
          × ((r : Registered) (j : ℕ) → lookup c rs ≡ some r → r.obj ≡ context j → w.names j ≡ none)
    bind_last_nothing w' h = elim (Option-cases (lookup c rs)) [
      | inl free ↦ (ap (λ p. p.0) (sym h ∙ bind_last_free free), λ r j e f. cc)
      | inr (r, found) ↦
          let as_found = sym h ∙ bind_last-bound r found in
          elim (Bool-cases (non_existent gone ask w r.obj)) [
            | inl dead ↦ (
              ap (λ p. p.0)
                  (as_found ∙ ap (λ b. if b then bound else (w, raised already_bound)) dead),
              λ q j e f. no_names (w.names j) (
                  sym (
                    ap (non_existent gone ask w)
                      (ap (λ x. x.obj) (some_inj r q (sym found ∙ e)) ∙ f))
                  ∙ dead),
            )
            | inr alive ↦ absurd (
                nothing_not_raised (
                  ap (λ p. p.1)
                    (as_found ∙ ap (λ b. if b then bound else (w, raised already_bound)) alive)))
          ]
    ]

  unbind_last_nothing :
      (w w' : World) (k : ℕ) (rs : List Registered) (c : Component)
      → unbind_last gone ask w k rs c ≡ (w', nothing)
      → w' ≡ put w k (remove c rs)
  unfolding unbind_last
  unbind_last_nothing w w' k rs c h = elim (Option-cases (lookup c rs)) [
    | inl missing ↦
        let e : unbind_last gone ask w k rs c ≡ (w, raised (not_found missing_node (c ∷ []))) =
          rw (unbind_last, missing) refl in
        absurd (nothing_not_raised (ap (λ p. p.1) (sym h ∙ e)))
    | inr (r, found) ↦
        let e : unbind_last gone ask w k rs c ≡ (put w k (remove c rs), nothing) =
          rw (unbind_last, found) refl in
        ap (λ p. p.0) (sym h ∙ e)
  ]

not_raised : (w w' : World) (p : World × Answer) → p ≡ (w', nothing) → IsRaised p.1 → ⊥
not_raised w w' p e r = subst IsRaised (ap (λ x. x.1) e) r

-- Where all objects outside of the server answer calls with an exception: after `bind` of an
-- object under a name, of whatever length, has returned without an exception, `resolve` of that
-- name gives that object as long as it exists, and changes nothing.
pub resolve-bind :
    (gone : ℕ → Bool) (ask : ℕ → Op → Name → Answer) (w w' : World) (i : ℕ) (n : Name) (o : Object)
    → ((j : ℕ) (op : Op) (n : Name) → IsRaised (ask j op n))
    → walk gone ask (bind o) w i n ≡ (w', nothing)
    → non_existent gone ask w' o ≡ false
    → walk gone ask resolve w' i n ≡ (w', object o)
resolve-bind gone ask w w' i n o refuse done alive =
    go (walk-Ends gone ask IsRaised (λ x. tt) refuse (bind o) w i n)
  where
    go :
        Ends gone ask IsRaised (λ x. tt) refuse (bind o) w i n
        → walk gone ask resolve w' i n ≡ (w', object o)
    go (inl (_, stop)) = absurd (not_raised w w' _ done stop)
    go (inr (k, c, rs, op, leads, at, ends, same)) =
        let entry : Registered = record { nc = c; obj = o; is_subctx = false } in
        let w1 = put w k (entry ∷ remove c rs) in
        let as_bound : op ≡ bind o = elim same [ inl e ↦ e | inr e ↦ e ] in
        let (made, blocked) =
          bind_last_nothing gone ask false o w k rs c w'
            (ap (λ x. last gone ask x w k rs c) (sym as_bound) ∙ sym ends ∙ done) in
        let found : lookup c (entry ∷ remove c rs) ≡ some entry = rw (same_component_self c) refl in
        let kept : (d : Component)
            → same_component c d ≡ false
            → lookup d (entry ∷ remove c rs) ≡ lookup d rs =
          λ d f.
            ap (λ b. if b then some entry else lookup d (remove c rs)) f ∙ lookup-remove c d rs f in
        subst (λ x. walk gone ask resolve x i n ≡ (x, object o)) (sym made)
          (resolve_led gone ask n w1 i k c (entry ∷ remove c rs) entry
            (put_here w k k _ (ground arith)) found
            (subst (λ x. non_existent gone ask x o ≡ false) made alive)
            (LeadsTo-put n w i k c rs (entry ∷ remove c rs) at kept blocked leads))

-- Where all objects outside of the server answer calls with an exception: after `unbind` of a name
-- has returned without an exception, `resolve` of that name raises NotFound with missing_node, and
-- changes nothing.
pub resolve-unbind :
    (gone : ℕ → Bool) (ask : ℕ → Op → Name → Answer) (w w' : World) (i : ℕ) (n : Name)
    → ((j : ℕ) (op : Op) (n : Name) → IsRaised (ask j op n))
    → walk gone ask unbind w i n ≡ (w', nothing)
    → (rest : Name) × (walk gone ask resolve w' i n ≡ (w', raised (not_found missing_node rest)))
resolve-unbind gone ask w w' i n refuse unbound =
    go (walk-Ends gone ask IsRaised (λ x. tt) refuse unbind w i n)
  where
    go :
        Ends gone ask IsRaised (λ x. tt) refuse unbind w i n
        → (rest : Name) × (walk gone ask resolve w' i n
            ≡ (w', raised (not_found missing_node rest)))
    go (inl (_, stop)) = absurd (not_raised w w' _ unbound stop)
    go (inr (k, c, rs, op, leads, at, ends, same)) =
        let as_unbound : op ≡ unbind = elim same [ inl e ↦ e | inr e ↦ e ] in
        let made =
          unbind_last_nothing gone ask w w' k rs c
            (ap (λ x. last gone ask x w k rs c) (sym as_unbound) ∙ sym ends ∙ unbound) in
        let (rest, found) = resolve_removed gone ask n w i k c rs at leads in
        (
          rest,
          subst (λ x. walk gone ask resolve x i n ≡ (x, raised (not_found missing_node rest)))
              (sym made) found,
        )
