-- ===== src/Name/Server/Faults.antt =====
-- src/services/name: where a binding is not what was asked for.
use orbit.Base.{
  ℕ, ◌≡◌, ◌≢◌, refl, sym, ap, ◌∙◌, Bool, true, false, none, some, List, [], ◌∷◌, ◌==◌,
  if◌then◌else◌, arith, Bool-cases, inl, inr,
}
use orbit.Name.{Component, Name}
use orbit.Name.Text.{name_to_string}
use orbit.Name.Text.RoundTrip.{has_plain, string_to_name-merged}
use orbit.Name.Server.{
  Object, context, Registered, World, Answer, nothing, object, raised, not_found, not_context, Op,
  bind, bind_context, same_component, lookup, remove, put, bind_last, walk, resolve_str,
}
use orbit.Name.Server.Paths.{same_component_lem, same_component_self, lookup-remove}
use orbit.Name.Server.Walking.{walk_last, walk_blocked, walk_on}
use orbit.Name.Server.Resolving.{put_here, put_there, some_inj, same_number}

some-none : (r : Registered) → some r ≡ none → ⊥
some-none r e = cc

module _ (gone : ℕ → Bool) (ask : ℕ → Op → Name → Answer) (w : World) (i j : ℕ) (c d : Component)
    (rs qs : List Registered) (r : Registered) (o : Object) (here : w.names i ≡ some rs)
    (found : lookup c rs ≡ some r) (subctx : r.is_subctx ≡ true) (there : r.obj ≡ context j)
    (next : w.names j ≡ some qs) (free : lookup d qs ≡ none) where
  abbrev entry : Registered
  entry = record { nc = d; obj = o; is_subctx = false }

  abbrev pub as_object : World
  as_object = put w j (entry ∷ remove d qs)

  bound : walk gone ask (bind_context o) w i (c ∷ d ∷ []) ≡ (as_object, nothing)
  unfolding bind_last
  bound =
      walk_on gone ask (bind_context o) w i c d [] rs here r j found subctx there
      ∙ walk_last gone ask (bind o) w j d qs next
      ∙ rw (bind_last, free) refl

  -- The way to the context is as it was.
  still : (ps : List Registered) × (as_object.names i ≡ some ps) × (lookup c ps ≡ some r)
  still = elim (Bool-cases (i == j)) [
    | inr off ↦ (rs, put_there w j i _ off ∙ here, found)
    | inl on ↦
        let table : rs ≡ qs = some_inj rs qs (sym here ∙ ap w.names (same_number i j on) ∙ next) in
        elim (Bool-cases (same_component d c)) [
          | inl e ↦ absurd (
              some-none r (
                sym found
                ∙ ap (lookup c) table
                ∙ ap (λ x. lookup x qs) (sym (same_component_lem d c e))
                ∙ free))
          | inr f ↦ (
            entry ∷ remove d qs,
            put_here w j i _ on,
            ap (λ b. if b then some entry else lookup c (remove d qs)) f
                ∙ lookup-remove d c qs f
                ∙ ap (lookup c) (sym table)
                ∙ found,
          )
        ]
  ]

  blocked :
      (e : Component) (p : Object)
      → walk gone ask (bind p) as_object i (c ∷ d ∷ e ∷ [])
        ≡ (as_object, raised (not_found not_context (d ∷ e ∷ [])))
  blocked e p =
      let (ps, at, hit) = still in
      walk_on gone ask (bind p) as_object i c d (e ∷ []) ps at r j hit subctx there
      ∙ walk_blocked gone ask (bind p) as_object j d e [] (entry ∷ remove d qs)
          (put_here w j j _ (ground arith)) entry
          (ap (λ b. if b then some entry else lookup d (remove d qs)) (same_component_self d)) refl

-- `bind_context` with a name of two components, where the first leads to a context that does not
-- bind the second, returns without an exception, but what it binds is not followed as a context:
-- `bind` with a further component then raises NotFound with not_context.
pub bind_context-compound :
    (gone : ℕ → Bool) (ask : ℕ → Op → Name → Answer) (w : World) (i j : ℕ) (c d e : Component)
    (rs qs : List Registered) (r : Registered) (o p : Object)
    → w.names i ≡ some rs
    → lookup c rs ≡ some r
    → r.is_subctx ≡ true
    → r.obj ≡ context j
    → w.names j ≡ some qs
    → lookup d qs ≡ none
    → (w' : World) × (walk gone ask (bind_context o) w i (c ∷ d ∷ []) ≡ (w', nothing))
      × (walk gone ask (bind p) w' i (c ∷ d ∷ e ∷ [])
          ≡ (w', raised (not_found not_context (d ∷ e ∷ []))))
bind_context-compound gone ask w i j c d e rs qs r o p here found subctx there next free = (
  as_object gone ask w i j c d rs qs r o here found subctx there next free,
  bound gone ask w i j c d rs qs r o here found subctx there next free,
  blocked gone ask w i j c d rs qs r o here found subctx there next free e p,
)

-- `resolve_str` with the text of a name whose only component has no kind, and an id that is not
-- empty and is made of dots, slashes and backslashes, answers with the context itself, whatever
-- the component is bound to.
pub resolve_str-special :
    (gone : ℕ → Bool) (ask : ℕ → Op → Name → Answer) (w : World) (i : ℕ) (id : List ℕ)
    → id ≢ []
    → has_plain id ≡ false
    → resolve_str gone ask w i (name_to_string (record { id = id; kind = [] } ∷ []))
      ≡ some (w, object (context i))
unfolding resolve_str
resolve_str-special gone ask w i id some_id special =
    let read =
      (string_to_name-merged id (record { id = []; kind = [] }) [] some_id special (refl, tt)).0 in
    rw (resolve_str, read) refl
