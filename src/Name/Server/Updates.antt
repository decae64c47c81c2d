-- ===== src/Name/Server/Updates.antt =====
-- src/services/name/orbit-name-server.c: the bindings as a map from contexts and components, and what
-- a call does to it.
use orbit.Base.{
  ℕ, ◌≤◌, ◌≡◌, Bool, true, false, ◌&&◌, Option, none, some, List, [], ◌∷◌, ◌==◌, if◌then◌else◌, ◌⊎◌,
}
use orbit.Name.{Component, Name}
use orbit.Name.Server.{
  Object, context, Registered, World, Answer, Op, bind, rebind, bind_context, rebind_context,
  unbind, resolve, bind_new_context, same_component, lookup, non_existent, last, nothing, object,
  raised, already_bound, not_found, missing_node, Raised,
}

-- What a component is bound to in a context.
abbrev pub binding : World → ℕ → Component → Option Registered
binding w j d = elim (w.names j) [ none ↦ none | some rs ↦ lookup d rs ]

-- The numbers from `next` on are free.
abbrev pub IsFresh : World → Type 0
IsFresh w = (j : ℕ) → w.next ≤ j → w.names j ≡ none

-- The binding of a component in a context is now `v`, and no other has changed.
abbrev pub Updates : World → World → ℕ → Component → Option Registered → Type 0
Updates w w' k c v =
    IsFresh w'
    × ((j : ℕ) (d : Component)
        → binding w' j d ≡ (if (j == k) && same_component c d then v else binding w j d))

abbrev pub entry : Component → Object → Bool → Option Registered
entry c o sub = some (record { nc = c; obj = o; is_subctx = sub })

-- What a call does with a last component: what it is bound to afterwards, and what the call answers,
-- where it was bound as given. `dead` says whether an object has ceased to exist, and `next` is the
-- number of the next context.
module _ (dead : Object → Bool) (next : ℕ) (c : Component) where
  abbrev pub after : Op → Option Registered → Option Registered
  after (bind o) none = entry c o false
  after (bind o) (some r) = if dead r.obj then entry c o false else some r
  after (rebind o) b = entry c o false
  after (bind_context o) none = entry c o true
  after (bind_context o) (some r) = if dead r.obj then entry c o true else some r
  after (rebind_context o) b = entry c o true
  after unbind b = none
  after resolve none = none
  after resolve (some r) = if dead r.obj then none else some r
  after bind_new_context none = entry c (context next) true
  after bind_new_context (some r) = if dead r.obj then entry c (context next) true else some r

  abbrev pub answer_to : Op → Option Registered → Answer
  answer_to (bind o) none = nothing
  answer_to (bind o) (some r) = if dead r.obj then nothing else raised already_bound
  answer_to (rebind o) b = nothing
  answer_to (bind_context o) none = nothing
  answer_to (bind_context o) (some r) = if dead r.obj then nothing else raised already_bound
  answer_to (rebind_context o) b = nothing
  answer_to unbind none = raised (not_found missing_node (c ∷ []))
  answer_to unbind (some r) = nothing
  answer_to resolve none = raised (not_found missing_node (c ∷ []))
  answer_to resolve (some r) =
      if dead r.obj then raised (not_found missing_node (c ∷ [])) else object r.obj
  answer_to bind_new_context none = object (context next)
  answer_to bind_new_context (some r) =
      if dead r.obj then object (context next) else raised already_bound

module _ (gone : ℕ → Bool) (ask : ℕ → Op → Name → Answer) (w : World) (k : ℕ) (rs : List Registered)
    (c : Component) (fresh : IsFresh w) (at : w.names k ≡ some rs) where
  -- The step does what the call is to do.
  abbrev Performs : Op → Type 0
  Performs op =
      Updates w (last gone ask op w k rs c).0 k c
        (after (non_existent gone ask w) w.next c op (lookup c rs))
      × ((last gone ask op w k rs c).1
          ≡ answer_to (non_existent gone ask w) w.next c op (lookup c rs))

-- An exception, or what an object outside of the server has answered.
abbrev pub IsTurnedAway : (ℕ → Op → Name → Answer) → Answer → Type 0
IsTurnedAway ask a =
    ((x : Raised) × (a ≡ raised x)) ⊎ ((j : ℕ) × (op : Op) × (n : Name) × (a ≡ ask j op n))
