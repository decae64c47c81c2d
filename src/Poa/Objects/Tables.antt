-- ===== src/Poa/Objects/Tables.antt =====
-- src/orb/poa/poa.c: the map and the lists of the servants, looked up after a change.
use orbit.Base.{
  ℕ, ◌+◌, ◌-◌, ◌≤◌, ◌≡◌, refl, sym, ap, ◌∙◌, subst, true, false, none, some, List, [], ◌∷◌,
  if◌then◌else◌, arith, Bool-cases, inl, inr, same_text, same_text_lem, length,
}
use orbit.Poa.Objects.{Object, ActiveMap, object_id_lookup, without, store, unlink}

pub lookup-without_self :
    (id : List ℕ) (os : List Object) → object_id_lookup id (without id os) ≡ none
lookup-without_self id [] = refl
lookup-without_self id (o ∷ os) = elim (Bool-cases (same_text o.object_id id)) [
  | inl e ↦ rw (e) (lookup-without_self id os)
  | inr e ↦ rw (e, e) (lookup-without_self id os)
]

apart : (a c d : List ℕ) → same_text a c ≡ true → same_text c d ≡ false → same_text a d ≡ false
apart a c d e f = subst (λ x. same_text x d ≡ false) (sym (same_text_lem a c e)) f

pub lookup-without :
    (c d : List ℕ) (os : List Object)
    → same_text c d ≡ false
    → object_id_lookup d (without c os) ≡ object_id_lookup d os
lookup-without c d [] e = refl
lookup-without c d (o ∷ os) e = elim (Bool-cases (same_text o.object_id c)) [
  | inl f ↦ rw (f, apart o.object_id c d f e) (lookup-without c d os e)
  | inr f ↦
      rw (f) (ap (λ t. if same_text o.object_id d then some o else t) (lookup-without c d os e))
]

pub lookup-store :
    (o : Object) (m : ActiveMap) (id : List ℕ)
    → object_id_lookup id (store o m).objects
      ≡ (if same_text o.object_id id then some o else object_id_lookup id m.objects)
lookup-store o m id = elim (Bool-cases (same_text o.object_id id)) [
  | inl e ↦ rw (e) refl
  | inr e ↦ rw (e) (lookup-without o.object_id id m.objects e)
]

-- What is found has the id that was looked for.
pub lookup_id :
    (id : List ℕ) (os : List Object) (o : Object)
    → object_id_lookup id os ≡ some o
    → o.object_id ≡ id
lookup_id id [] o h = cc
lookup_id id (q ∷ os) o h = elim (Bool-cases (same_text q.object_id id)) [
  | inl e ↦
      let first : some q ≡ some o =
        subst (λ b. (if b then some q else object_id_lookup id os) ≡ some o) e h in
      sym (object_ids q o first) ∙ same_text_lem q.object_id id e
  | inr e ↦
      lookup_id id os o (subst (λ b. (if b then some q else object_id_lookup id os) ≡ some o) e h)
]
  where
    object_ids : (a b : Object) → some a ≡ some b → a.object_id ≡ b.object_id
    object_ids a b e = ap (λ o. elim o [ none ↦ a.object_id | some x ↦ x.object_id ]) e

-- How often an id stands in a servant's list, and how often it should.
abbrev pub count : List ℕ → List (List ℕ) → ℕ
count id [] = 0
count id (x ∷ xs) = (if same_text x id then 1 else 0) + count id xs

pub count-unlink_self :
    (id : List ℕ) (xs : List (List ℕ)) → count id (unlink id xs) ≡ count id xs - 1
count-unlink_self id [] = refl
count-unlink_self id (y ∷ ys) = elim (Bool-cases (same_text y id)) [
  | inl e ↦ rw (e) (omega arith)
  | inr e ↦ rw (e, e) (omega (arith, count-unlink_self id ys))
]

pub count-unlink :
    (x id : List ℕ) (xs : List (List ℕ))
    → same_text x id ≡ false
    → count id (unlink x xs) ≡ count id xs
count-unlink x id [] f = refl
count-unlink x id (y ∷ ys) f = elim (Bool-cases (same_text y x)) [
  | inl e ↦ rw (e, apart y x id e f) (omega arith)
  | inr e ↦ rw (e) (ap (λ n. (if same_text y id then 1 else 0) + n) (count-unlink x id ys f))
]

pub length-unlink : (x : List ℕ) (xs : List (List ℕ)) → length (unlink x xs) ≤ length xs
length-unlink x [] = omega arith
length-unlink x (y ∷ ys) = ground (arith, length-unlink x ys)
