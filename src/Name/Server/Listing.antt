-- ===== src/Name/Server/Listing.antt =====
-- src/services/name/orbit-name-server.c: listing a context, at once and by an iterator. Reference counts
-- and the servants of iterators are not modelled.
use orbit.Base.{
  ℕ, zero, suc, ◌+◌, ◌<◌, ◌≤◌, ◌≡◌, refl, sym, ap, ◌∙◌, Bool, true, false, Option, none, some, List,
  [], ◌∷◌, ◌++◌, ltb, if◌then◌else◌, arith, length, length-drop, take, drop, map, append-nil,
  Bool-cases, inl, inr,
}
use mathlib.Core.Option
use orbit.Name.{Component}
use orbit.Name.Server.{Registered}

-- `CosNaming_Binding`: a name of one component, and whether it is bound to a context.
pub record Binding : Type 0 where
  pub binding_name : Component
  pub is_ncontext : Bool

abbrev pub binding_of : Registered → Binding
binding_of r = record { binding_name = r.nc; is_ncontext = r.is_subctx }

-- `n_names_into_bindinglist`: the bindings, and the items that are left.
unfoldable pub names_into_bindinglist : ℕ → List Registered → List Binding × List Registered
names_into_bindinglist zero items = ([], items)
names_into_bindinglist (suc n) [] = ([], [])
names_into_bindinglist (suc n) (r ∷ items) =
    let rest = names_into_bindinglist n items in (binding_of r ∷ rest.0, rest.1)

abbrev pub min : ℕ → ℕ → ℕ
min a b = if ltb a b then a else b

-- `impl_NamingContext_list`: the list, and the items of the iterator, `none` for a nil iterator.
unfoldable pub list : List Registered → ℕ → List Binding × Option (List Registered)
list names how_many =
    let taken =
      if ltb 0 how_many
      then names_into_bindinglist (min how_many (length names)) names
      else ([], names) in
    (taken.0, elim taken.1 [ [] ↦ none | r ∷ rs ↦ some (r ∷ rs) ])

-- `impl_BindingIterator_next_one`: the result, the binding, and the items that are left.
unfoldable pub next_one : List Registered → Bool × Option Binding × List Registered
next_one [] = (false, none, [])
next_one (r ∷ items) = (elim items [ [] ↦ false | q ∷ qs ↦ true ], some (binding_of r), items)

-- `impl_BindingIterator_next_n`
unfoldable pub next_n : List Registered → ℕ → Bool × List Binding × List Registered
next_n items how_many =
    let taken = names_into_bindinglist (min (length items) how_many) items in
    (elim taken.0 [ [] ↦ false | b ∷ bs ↦ true ], taken.0, taken.1)

-- The loop of name-client.c over the contents of a context: `bl` is what it prints next, `bi` the
-- iterator, and `none` stands for a loop that goes on. It fetches `fetch` bindings at once.
unfoldable pub print_all : ℕ → ℕ → List Binding → Option (List Registered) → Option (List Binding)
print_all zero fetch bl bi = none
print_all (suc fuel) fetch bl bi = elim bi [
  | none ↦ some bl
  | some items ↦
      let (more, bl', items') = next_n items fetch in
      Option.map (λ bs. bl ++ bs) (print_all fuel fetch bl' (if more then some items' else none))
]

-- A loop over an iterator that goes on as long as `next_one` returns true.
unfoldable pub while_next_one : ℕ → List Registered → Option (List Binding)
while_next_one zero items = none
while_next_one (suc fuel) items =
    let (more, b, items') = next_one items in
    let rest = while_next_one fuel items' in
    elim more [
      | false ↦ some []
      | true ↦ elim b [ none ↦ none | some x ↦ Option.map (λ bs. x ∷ bs) rest ]
    ]

names_into_bindinglist_lem :
    (n : ℕ) (items : List Registered)
    → names_into_bindinglist n items ≡ (map binding_of (take n items), drop n items)
unfolding names_into_bindinglist
names_into_bindinglist_lem zero items = refl
names_into_bindinglist_lem (suc n) [] = refl
names_into_bindinglist_lem (suc n) (r ∷ items) =
    ap (λ p. (binding_of r ∷ p.0, p.1)) (names_into_bindinglist_lem n items)

take-drop :
    (n : ℕ) (items : List Registered)
    → map binding_of (take n items) ++ map binding_of (drop n items) ≡ map binding_of items
take-drop zero items = refl
take-drop (suc n) [] = refl
take-drop (suc n) (r ∷ items) = ap (λ t. binding_of r ∷ t) (take-drop n items)

next_n_some :
    (r : Registered) (items : List Registered) (fetch : ℕ)
    → 0 < fetch
    → (m : ℕ) × (next_n (r ∷ items) fetch
        ≡ (true, map binding_of (take (suc m) (r ∷ items)), drop m items))
unfolding next_n
next_n_some r items zero h = absurd (omega arith)
next_n_some r items (suc m) h = elim (Bool-cases (ltb (suc (length items)) (suc m))) [
  | inl e ↦ (
    length items,
    rw (next_n, e, names_into_bindinglist_lem (suc (length items)) (r ∷ items)) refl,
  )
  | inr e ↦ (m, rw (next_n, e, names_into_bindinglist_lem (suc m) (r ∷ items)) refl)
]

names_into_bindinglist_nil : (n : ℕ) → names_into_bindinglist n [] ≡ ([], [])
unfolding names_into_bindinglist
names_into_bindinglist_nil zero = refl
names_into_bindinglist_nil (suc n) = refl

next_n_none : (fetch : ℕ) → next_n [] fetch ≡ (false, [], [])
unfolding next_n
next_n_none fetch = rw (next_n, names_into_bindinglist_nil (min 0 fetch)) refl

abbrev after_next_n :
    ℕ → ℕ → List Binding → Bool × List Binding × List Registered → Option (List Binding)
after_next_n fuel fetch bl t =
    Option.map (λ bs. bl ++ bs) (print_all fuel fetch t.1 (if t.0 then some t.2 else none))

print_all_rest :
    (fuel fetch : ℕ) (bl : List Binding) (items : List Registered)
    → 0 < fetch
    → length items + 2 ≤ fuel
    → print_all fuel fetch bl (some items) ≡ some (bl ++ map binding_of items)
unfolding print_all
print_all_rest zero fetch bl items h f = absurd (omega arith)
print_all_rest (suc zero) fetch bl items h f = absurd (omega arith)
print_all_rest (suc (suc fuel)) fetch bl [] h f =
    ap (after_next_n (suc fuel) fetch bl) (next_n_none fetch)
print_all_rest (suc (suc fuel)) fetch bl (r ∷ items) h f =
    let (m, taken) = next_n_some r items fetch h in
    let rest =
      print_all_rest (suc fuel) fetch (map binding_of (take (suc m) (r ∷ items))) (drop m items) h
        (omega (arith, length-drop m items)) in
    ap (after_next_n (suc fuel) fetch bl) taken
    ∙ ap (Option.map (λ bs. bl ++ bs)) rest
    ∙ ap (λ bs. some (bl ++ bs)) (take-drop (suc m) (r ∷ items))

abbrev iterator : List Registered → Option (List Registered)
iterator [] = none
iterator (r ∷ rs) = some (r ∷ rs)

list_lem :
    (names : List Registered) (how_many : ℕ)
    → (n : ℕ) × (list names how_many ≡ (map binding_of (take n names), iterator (drop n names)))
unfolding list
list_lem names how_many = elim (Bool-cases (ltb 0 how_many)) [
  | inl e ↦ (
    min how_many (length names),
    rw (list, e, names_into_bindinglist_lem (min how_many (length names)) names)
        (split (drop (min how_many (length names)) names)),
  )
  | inr e ↦ (0, rw (list, e) (split names))
]
  where
    split :
        {A : Type 0} {bl : A} (rs : List Registered)
        → ◌≡◌ {A = A × Option (List Registered)}
            (bl, elim rs [ [] ↦ none | r ∷ rs ↦ some (r ∷ rs) ])
            (bl, iterator rs)
    split [] = refl
    split (r ∷ rs) = refl

print_all-iterator :
    (fuel fetch : ℕ) (bl : List Binding) (items : List Registered)
    → 0 < fetch
    → length items + 2 ≤ fuel
    → print_all fuel fetch bl (iterator items) ≡ some (bl ++ map binding_of items)
unfolding print_all
print_all-iterator zero fetch bl items h f = absurd (omega arith)
print_all-iterator (suc fuel) fetch bl [] h f = ap some (sym (append-nil bl))
print_all-iterator (suc fuel) fetch bl (r ∷ items) h f =
    print_all_rest (suc fuel) fetch bl (r ∷ items) h f

-- The client's loop over a listing ends: with at least one binding fetched at a time, after as
-- many rounds as the context has bindings and two more at most, and then it has printed each
-- binding of the context once, in the order of the table.
pub print_all-list :
    (names : List Registered) (fetch fuel : ℕ)
    → 0 < fetch
    → length names + 2 ≤ fuel
    → (let (bl, bi) = list names fetch in print_all fuel fetch bl bi ≡ some (map binding_of names))
print_all-list names fetch fuel h f =
    let (n, e) = list_lem names fetch in
    ap (λ p. print_all fuel fetch p.0 p.1) e
    ∙ print_all-iterator fuel fetch (map binding_of (take n names)) (drop n names) h
        (omega (arith, length-drop n names))
    ∙ ap some (take-drop n names)

-- A loop that calls `next_one` as long as it returns true gets every binding but the last.
pub while_next_one-lost :
    (r : Registered) (items : List Registered) (fuel : ℕ)
    → length items < fuel
    → (while_next_one fuel (r ∷ items) ≡ some (map binding_of (take (length items) (r ∷ items))))
unfolding while_next_one next_one
while_next_one-lost r items zero h = absurd (omega arith)
while_next_one-lost r [] (suc fuel) h = refl
while_next_one-lost r (q ∷ items) (suc fuel) h =
    ap (Option.map (λ bs. binding_of r ∷ bs)) (while_next_one-lost q items fuel (omega arith))
