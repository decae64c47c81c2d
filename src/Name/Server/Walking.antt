-- ===== src/Name/Server/Walking.antt =====
-- src/services/name/orbit-name-server.c: where a call with a name ends.
use orbit.Base.{
  ℕ, ◌≡◌, refl, sym, ap, ◌∙◌, subst, Bool, true, false, none, some, List, [], ◌∷◌, arith,
  Bool-cases, Option-cases, inl, inr, ◌⊎◌,
}
use orbit.Name.{Component, Name}
use orbit.Name.Server.{
  Object, context, other, Registered, World, Answer, Raised, raised, not_found, missing_node,
  not_context, object_not_exist, Op, bind, rebind, rebind_context, bind_new_context, bind_context,
  unbind, resolve, lookup, forwarded, follows, last, walk,
}
use orbit.Name.Server.Paths.{LeadsTo}

Object-cases : (o : Object) → ((j : ℕ) × (o ≡ context j)) ⊎ ((j : ℕ) × (o ≡ other j))
Object-cases (context j) = inl (j, refl)
Object-cases (other j) = inr (j, refl)

forwarded-forwarded : (op : Op) → forwarded (forwarded op) ≡ forwarded op
forwarded-forwarded (bind o) = refl
forwarded-forwarded (rebind o) = refl
forwarded-forwarded (bind_context o) = refl
forwarded-forwarded (rebind_context o) = refl
forwarded-forwarded unbind = refl
forwarded-forwarded resolve = refl
forwarded-forwarded bind_new_context = refl

-- One call on a context.
module _ (gone : ℕ → Bool) (ask : ℕ → Op → Name → Answer) (op : Op) (w : World) (i : ℕ) where
  walk_nowhere :
      (n : Name) → w.names i ≡ none → walk gone ask op w i n ≡ (w, raised object_not_exist)
  unfolding walk
  walk_nowhere [] e = rw (walk, e) refl
  walk_nowhere (c ∷ []) e = rw (walk, e) refl
  walk_nowhere (c ∷ d ∷ n) e = rw (walk, e) refl

  pub walk_last :
      (c : Component) (rs : List Registered)
      → w.names i ≡ some rs
      → walk gone ask op w i (c ∷ []) ≡ last gone ask op w i rs c
  unfolding walk
  walk_last c rs e = rw (walk, e) refl

  module _ (c d : Component) (n : Name) (rs : List Registered) (here : w.names i ≡ some rs) where
    pub walk_missing :
        lookup c rs ≡ none
        → walk gone ask op w i (c ∷ d ∷ n) ≡ (w, raised (not_found missing_node (c ∷ d ∷ n)))
    unfolding walk
    walk_missing e = rw (walk, here, e) refl

    pub walk_blocked :
        (r : Registered)
        → lookup c rs ≡ some r
        → follows op r ≡ false
        → walk gone ask op w i (c ∷ d ∷ n) ≡ (w, raised (not_found not_context (c ∷ d ∷ n)))
    unfolding walk
    walk_blocked r e f = rw (walk, here, e, f) refl

    walk_other :
        (r : Registered) (j : ℕ)
        → lookup c rs ≡ some r
        → follows op r ≡ true
        → r.obj ≡ other j
        → walk gone ask op w i (c ∷ d ∷ n) ≡ (w, ask j (forwarded op) (d ∷ n))
    unfolding walk
    walk_other r j e f g = rw (walk, here, e, f, g) refl

    pub walk_on :
        (r : Registered) (j : ℕ)
        → lookup c rs ≡ some r
        → follows op r ≡ true
        → r.obj ≡ context j
        → walk gone ask op w i (c ∷ d ∷ n) ≡ walk gone ask (forwarded op) w j (d ∷ n)
    unfolding walk
    walk_on r j e f g = ground arith

module _ (gone : ℕ → Bool) (ask : ℕ → Op → Name → Answer) (P : Answer → Type 0)
    (raises : (x : Raised) → P (raised x))
    (refuse : (j : ℕ) (op : Op) (n : Name) → P (ask j op n)) where
  -- The call has been refused or answered elsewhere on its way, or a context has made the last step.
  abbrev pub Ends : Op → World → ℕ → Name → Type 0
  Ends op w i n =
      (((walk gone ask op w i n).0 ≡ w) × P (walk gone ask op w i n).1)
      ⊎ ((k : ℕ) × (c : Component) × (rs : List Registered) × (op' : Op) × LeadsTo w i n k c
          × (w.names k ≡ some rs)
          × (walk gone ask op w i n ≡ last gone ask op' w k rs c)
          × ((op' ≡ op) ⊎ (op' ≡ forwarded op)))

  refused :
      (op : Op) (w : World) (i : ℕ) (n : Name) (a : Answer)
      → P a
      → walk gone ask op w i n ≡ (w, a)
      → Ends op w i n
  refused op w i n a h e = inl (ap (λ p. p.0) e, subst P (sym (ap (λ p. p.1) e)) h)

  passed_on :
      (op : Op) (w : World) (i j : ℕ) (c d : Component) (n : Name) (rs : List Registered)
      (r : Registered)
      → w.names i ≡ some rs
      → lookup c rs ≡ some r
      → r.obj ≡ context j
      → walk gone ask op w i (c ∷ d ∷ n) ≡ walk gone ask (forwarded op) w j (d ∷ n)
      → Ends (forwarded op) w j (d ∷ n)
      → Ends op w i (c ∷ d ∷ n)
  passed_on op w i j c d n rs r here found there step (inl (same, stop)) =
      inl (ap (λ p. p.0) step ∙ same, subst P (sym (ap (λ p. p.1) step)) stop)
  passed_on op w i j c d n rs r here found there step (inr (k, x, qs, op', leads, at, ends, same)) =
      inr
        (k, x, qs, op', (rs, r, j, here, found, there, leads), at, step ∙ ends, inr (settled same))
    where
      settled : ((op' ≡ forwarded op) ⊎ (op' ≡ forwarded (forwarded op))) → op' ≡ forwarded op
      settled (inl e) = e
      settled (inr e) = e ∙ forwarded-forwarded op

  pub walk-Ends : (op : Op) (w : World) (i : ℕ) (n : Name) → Ends op w i n
  walk-Ends op w i [] = elim (Option-cases (w.names i)) [
    | inl nowhere ↦ refused op w i [] _ (raises _) (walk_nowhere gone ask op w i [] nowhere)
    | inr (rs, here) ↦
        refused op w i [] (raised (not_found missing_node [])) (raises _)
          (unfold walk in rw (walk, here) refl)
  ]
  walk-Ends op w i (c ∷ []) = elim (Option-cases (w.names i)) [
    | inl nowhere ↦
        refused op w i (c ∷ []) _ (raises _) (walk_nowhere gone ask op w i (c ∷ []) nowhere)
    | inr (rs, here) ↦
        inr (i, c, rs, op, (refl, refl), here, walk_last gone ask op w i c rs here, inl refl)
  ]
  walk-Ends op w i (c ∷ d ∷ n) =
      let next : (j : ℕ) → Ends (forwarded op) w j (d ∷ n) =
        λ j. walk-Ends (forwarded op) w j (d ∷ n) in
      elim (Option-cases (w.names i)) [
        | inl nowhere ↦
            refused op w i (c ∷ d ∷ n) _ (raises _)
              (walk_nowhere gone ask op w i (c ∷ d ∷ n) nowhere)
        | inr (rs, here) ↦ elim (Option-cases (lookup c rs)) [
          | inl missing ↦
              refused op w i (c ∷ d ∷ n) _ (raises _)
                (walk_missing gone ask op w i c d n rs here missing)
          | inr (r, found) ↦ elim (Bool-cases (follows op r)) [
            | inr blocked ↦
                refused op w i (c ∷ d ∷ n) _ (raises _)
                  (walk_blocked gone ask op w i c d n rs here r found blocked)
            | inl through ↦ elim (Object-cases r.obj) [
              | inr (j, there) ↦
                  refused op w i (c ∷ d ∷ n) _ (refuse j (forwarded op) (d ∷ n))
                    (walk_other gone ask op w i c d n rs here r j found through there)
              | inl (j, there) ↦
                  passed_on op w i j c d n rs r here found there
                    (walk_on gone ask op w i c d n rs here r j found through there) (next j)
            ]
          ]
        ]
      ]
