-- ===== src/Name/Server.antt =====
-- src/services/name/orbit-name-server.c: naming contexts. The contexts of a server form a graph, since
-- a name may be bound to any of them; a hash table is the list of its entries, in the order in which
-- `g_hash_table_foreach` visits them.
pub mod Paths
pub mod Walking
pub mod Resolving
pub mod Updates
pub mod Listing
pub mod Faults
use orbit.Base.{
  ℕ, suc, ◌+◌, Bool, true, false, ◌&&◌, Option, none, some, List, [], ◌∷◌, ◌==◌, if◌then◌else◌,
  same_text,
}
use orbit.Name.{Component, Name}
use orbit.Name.Text.{string_to_name}

-- An object reference: a naming context of this server, or anything else.
pub data Object : Type 0 where
  context other : ℕ → Object

-- `RegisteredName`, as long as the table refers to it.
pub record Registered : Type 0 where
  pub nc : Component
  pub obj : Object
  pub is_subctx : Bool

-- The tables of the contexts that have been created, and the number of the next one.
pub record World : Type 0 where
  pub names : ℕ → Option (List Registered)
  pub next : ℕ

pub data NotFoundReason : Type 0 where
  missing_node not_context : NotFoundReason

pub data Raised : Type 0 where
  not_found : NotFoundReason → Name → Raised
  already_bound object_not_exist : Raised
  other_exception : ℕ → Raised

-- What a call returns, or raises.
pub data Answer : Type 0 where
  nothing : Answer
  object : Object → Answer
  raised : Raised → Answer

-- The calls that take a name.
pub data Op : Type 0 where
  bind rebind bind_context rebind_context : Object → Op
  unbind resolve bind_new_context : Op

-- `nc_compare`
abbrev pub same_component : Component → Component → Bool
same_component a b = same_text a.id b.id && same_text a.kind b.kind

abbrev pub lookup : Component → List Registered → Option Registered
lookup c [] = none
lookup c (r ∷ rs) = let rest = lookup c rs in if same_component r.nc c then some r else rest

abbrev pub remove : Component → List Registered → List Registered
remove c [] = []
remove c (r ∷ rs) = let rest = remove c rs in if same_component r.nc c then rest else r ∷ rest

abbrev pub put : World → ℕ → List Registered → World
put w i rs = record w { names = λ j. if j == i then some rs else w.names j }

abbrev pub is_none : Option (List Registered) → Bool
is_none none = true
is_none (some rs) = false

-- `impl_NamingContext_new_context`
abbrev pub new_context : World → World
new_context w = record (put w w.next []) { next = w.next + 1 }

-- What a call with the rest of a name becomes: binding a context under a longer name is passed on as
-- `bind`.
abbrev pub forwarded : Op → Op
forwarded (bind_context o) = bind o
forwarded op = op

-- Whether the entry is followed: only `resolve` does not ask whether it is a context.
abbrev pub follows : Op → Registered → Bool
follows resolve r = true
follows op r = r.is_subctx

abbrev pub why : Option Registered → NotFoundReason
why none = missing_node
why (some r) = not_context

-- What other objects do: whether they have ceased to exist, and what they answer.
module _ (gone : ℕ → Bool) (ask : ℕ → Op → Name → Answer) where
  -- `CORBA_Object_non_existent`
  abbrev pub non_existent : World → Object → Bool
  non_existent w (context j) = is_none (w.names j)
  non_existent w (other j) = gone j

  -- `rn_new` and `g_hash_table_insert`, for `bind` and `bind_context` of a last component.
  unfoldable pub bind_last :
      Bool → Object → World → ℕ → List Registered → Component → World × Answer
  bind_last sub o w i rs c =
      let bound : World × Answer =
        (put w i (record { nc = c; obj = o; is_subctx = sub } ∷ remove c rs), nothing) in
      elim (lookup c rs) [
        | none ↦ bound
        | some r ↦ if non_existent w r.obj then bound else (w, raised already_bound)
      ]

  unfoldable pub rebind_last :
      Bool → Object → World → ℕ → List Registered → Component → World × Answer
  rebind_last sub o w i rs c =
      (put w i (record { nc = c; obj = o; is_subctx = sub } ∷ remove c rs), nothing)

  unfoldable pub unbind_last : World → ℕ → List Registered → Component → World × Answer
  unbind_last w i rs c = elim (lookup c rs) [
    | none ↦ (w, raised (not_found missing_node (c ∷ [])))
    | some r ↦ (put w i (remove c rs), nothing)
  ]

  unfoldable pub resolve_last : World → ℕ → List Registered → Component → World × Answer
  resolve_last w i rs c = elim (lookup c rs) [
    | none ↦ (w, raised (not_found missing_node (c ∷ [])))
    | some r ↦
        if non_existent w r.obj
        then (put w i (remove c rs), raised (not_found missing_node (c ∷ [])))
        else (w, object r.obj)
  ]

  unfoldable pub bind_new_context_last : World → ℕ → List Registered → Component → World × Answer
  unfolding bind_last
  bind_new_context_last w i rs c =
      let made : List Registered → World × Answer = λ qs.
        ((bind_last true (context w.next) (new_context w) i qs c).0, object (context w.next)) in
      elim (lookup c rs) [
        | none ↦ made rs
        | some r ↦ if non_existent w r.obj then made (remove c rs) else (w, raised already_bound)
      ]

  abbrev pub last : Op → World → ℕ → List Registered → Component → World × Answer
  last (bind o) = bind_last false o
  last (rebind o) = rebind_last false o
  last (bind_context o) = bind_last true o
  last (rebind_context o) = rebind_last true o
  last unbind = unbind_last
  last resolve = resolve_last
  last bind_new_context = bind_new_context_last

  -- A call on a context, by its number: the shape that `impl_NamingContext_bind` and the others share.
  unfoldable pub walk : Op → World → ℕ → Name → World × Answer
  walk op w i [] = elim (w.names i) [
    | none ↦ (w, raised object_not_exist)
    | some rs ↦ (w, raised (not_found missing_node []))
  ]
  walk op w i (c ∷ []) = elim (w.names i) [
    | none ↦ (w, raised object_not_exist)
    | some rs ↦ last op w i rs c
  ]
  walk op w i (c ∷ d ∷ n) = elim (w.names i) [
    | none ↦ (w, raised object_not_exist)
    | some rs ↦ elim (lookup c rs) [
      | none ↦ (w, raised (not_found missing_node (c ∷ d ∷ n)))
      | some r ↦ elim (follows op r) [
        | false ↦ (w, raised (not_found not_context (c ∷ d ∷ n)))
        | true ↦ elim r.obj [
          | context j ↦ walk (forwarded op) w j (d ∷ n)
          | other j ↦ (w, ask j (forwarded op) (d ∷ n))
        ]
      ]
    ]
  ]

  -- `impl_NamingContextExt_resolve_str`; `none` is its use of a name that is NULL.
  unfoldable pub resolve_str : World → ℕ → List ℕ → Option (World × Answer)
  resolve_str w i s = elim (string_to_name s) [
    | none ↦ none
    | some [] ↦ some (w, object (context i))
    | some (c ∷ n) ↦ some (walk resolve w i (c ∷ n))
  ]
