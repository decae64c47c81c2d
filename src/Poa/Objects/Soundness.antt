-- ===== src/Poa/Objects/Soundness.antt =====
-- src/orb/poa/poa.c: the map of a POA and the lists of its servants agree.
use orbit.Base.{
  ℕ, ◌+◌, ◌≤◌, ◌≡◌, refl, sym, ap, ◌∙◌, subst, true, false, Option, none, some, List, [], ◌∷◌, ◌==◌,
  if◌then◌else◌, leb, arith, Bool-cases, inl, inr, ◌⊎◌, same_text, same_text_lem, length,
}
use orbit.Poa.Objects.{
  Object, ActiveMap, object_id_lookup, without, store, unlink, set_private, activate_object_T,
  release,
}
use orbit.Poa.Objects.Tables.{
  lookup-without_self, lookup-without, lookup-store, count, count-unlink_self, count-unlink,
  length-unlink,
}

-- 1 if the servant serves the object.
abbrev pub serves : ℕ → Option Object → ℕ
serves s none = 0
serves s (some o) = elim o.servant [ none ↦ 0 | some t ↦ if s == t then 1 else 0 ]

-- An object that is active stands once in the list of its servant, and in no other; a servant of a POA
-- with UNIQUE_ID has one object at most.
pub record IsSound (m : ActiveMap) : Type 0 where
  pub linked :
      (s : ℕ) (id : List ℕ) → count id (m.private s) ≡ serves s (object_id_lookup id m.objects)
  pub single : (s : ℕ) → m.unique_id ≡ true → length (m.private s) ≤ 1

pub same_number : (t s : ℕ) → (t == s) ≡ true → t ≡ s
same_number t s e = ground arith

-- What does not touch the map or the lists.
pub moved :
    (m m' : ActiveMap)
    → m'.objects ≡ m.objects
    → m'.private ≡ m.private
    → m'.unique_id ≡ m.unique_id
    → IsSound m
    → IsSound m'
moved m m' eo ep eu h = record {
  linked = λ s id. rw (eo, ep) (h.linked s id);
  single = λ s u. rw (ep) (h.single s (sym eu ∙ u));
}

-- An object is stored that is served as the one that was there, if any.
pub store_served :
    (m : ActiveMap) (o : Object)
    → ((s : ℕ) → serves s (object_id_lookup o.object_id m.objects) ≡ serves s (some o))
    → IsSound m
    → IsSound (store o m)
store_served m o same h = record {
  linked = λ s id. elim (Bool-cases (same_text o.object_id id)) [
    | inl e ↦
        h.linked s id
        ∙ ap (λ x. serves s (object_id_lookup x m.objects)) (sym (same_text_lem o.object_id id e))
        ∙ same s
        ∙ ap (serves s) (
            sym (
              lookup-store o m id
              ∙ ap (λ b. if b then some o else object_id_lookup id m.objects) e))
    | inr f ↦
        h.linked s id
        ∙ ap (serves s) (
            sym (
              lookup-store o m id
              ∙ ap (λ b. if b then some o else object_id_lookup id m.objects) f))
  ];
  single = h.single;
}

-- An object is stored again with its servant.
pub store-IsSound :
    (m : ActiveMap) (o q : Object)
    → object_id_lookup o.object_id m.objects ≡ some q
    → o.servant ≡ q.servant
    → IsSound m
    → IsSound (store o m)
store-IsSound m o q found same h =
    store_served m o
      (λ s.
        ap (serves s) found
        ∙ sym (ap (λ t. elim t [ none ↦ 0 | some t ↦ if s == t then 1 else 0 ]) same))
      h

-- An object that nobody serves, or that is not there.
abbrev pub Unserved : List ℕ → ActiveMap → Type 0
Unserved id m = (s : ℕ) → serves s (object_id_lookup id m.objects) ≡ 0

pub activate_object_T-IsSound :
    (o : Object) (s : ℕ) (m : ActiveMap)
    → Unserved o.object_id m
    → (m.unique_id ≡ true → m.private s ≡ [])
    → IsSound m
    → IsSound (activate_object_T o s m)
unfolding activate_object_T
activate_object_T-IsSound o s m unserved alone h = record {
  linked = λ t id. go t id (Bool-cases (t == s)) (Bool-cases (same_text o.object_id id));
  single = λ t u. elim (Bool-cases (t == s)) [
    | inl e ↦ rw (e, alone u) (omega arith)
    | inr f ↦ rw (f) (h.single t u)
  ];
}
  where
    made : Object
    made = record o { servant = some s; refs = o.refs + 1 }

    found :
        (id : List ℕ)
        → object_id_lookup id (store made m).objects
          ≡ (if same_text o.object_id id then some made else object_id_lookup id m.objects)
    found id = lookup-store made m id

    zero_before :
        (t : ℕ) (id : List ℕ) → same_text o.object_id id ≡ true → count id (m.private t) ≡ 0
    zero_before t id e =
        h.linked t id
        ∙ ap (λ x. serves t (object_id_lookup x m.objects)) (sym (same_text_lem o.object_id id e))
        ∙ unserved t

    go :
        (t : ℕ) (id : List ℕ)
        → ((t == s) ≡ true) ⊎ ((t == s) ≡ false)
        → (same_text o.object_id id ≡ true) ⊎ (same_text o.object_id id ≡ false)
        → count id (if t == s then o.object_id ∷ m.private s else m.private t)
          ≡ serves t (object_id_lookup id (store made m).objects)
    go t id (inl a) (inl e) = rw (found id, a, e, a, zero_before s id e) refl
    go t id (inl a) (inr e) =
        rw (found id, a, e)
          (ap (λ x. x) (omega arith)
            ∙ h.linked s id
            ∙ ap (λ x. serves x (object_id_lookup id m.objects)) (sym (same_number t s a)))
    go t id (inr a) (inl e) = rw (found id, a, e, a) (zero_before t id e)
    go t id (inr a) (inr e) = rw (found id, a, e) (h.linked t id)

released_private : (q : Object) (m : ActiveMap) → (release q m).private ≡ m.private
unfolding release
released_private q m = elim (Bool-cases (leb q.refs 1)) [
  | inl e ↦ rw (release, e) refl
  | inr e ↦ rw (release, e) refl
]

released_unique : (q : Object) (m : ActiveMap) → (release q m).unique_id ≡ m.unique_id
unfolding release
released_unique q m = elim (Bool-cases (leb q.refs 1)) [
  | inl e ↦ rw (release, e) refl
  | inr e ↦ rw (release, e) refl
]

-- The other objects are served as before.
pub released_others :
    (q : Object) (m : ActiveMap) (id : List ℕ)
    → same_text q.object_id id ≡ false
    → object_id_lookup id (release q m).objects ≡ object_id_lookup id m.objects
unfolding release
released_others q m id f = elim (Bool-cases (leb q.refs 1)) [
  | inl e ↦ rw (release, e) (lookup-without q.object_id id m.objects f)
  | inr e ↦ rw (release, e, f) (lookup-without q.object_id id m.objects f)
]

-- Nobody serves an object that is released without a servant.
pub released_unserved :
    (t : ℕ) (q : Object) (m : ActiveMap) (id : List ℕ)
    → q.servant ≡ none
    → same_text q.object_id id ≡ true
    → serves t (object_id_lookup id (release q m).objects) ≡ 0
unfolding release
released_unserved t q m id idle e = elim (Bool-cases (leb q.refs 1)) [
  | inl last ↦
      rw (release, last)
        (ap (λ x. serves t (object_id_lookup x (without q.object_id m.objects)))
            (sym (same_text_lem q.object_id id e))
          ∙ ap (serves t) (lookup-without_self q.object_id m.objects))
  | inr more ↦ rw (release, more, e, idle) refl
]

-- The servant lets go of the object.
pub retire-IsSound :
    (o : Object) (s : ℕ) (m : ActiveMap)
    → object_id_lookup o.object_id m.objects ≡ some o
    → o.servant ≡ some s
    → IsSound m
    → IsSound (
        release
          (record o { servant = none; deactivate_do = false })
          (set_private s (unlink o.object_id (m.private s)) m))
retire-IsSound o s m here serving h = record {
  linked = λ t id.
      ap (λ f. count id (f t)) (released_private idle m1)
      ∙ go t id (Bool-cases (t == s)) (Bool-cases (same_text o.object_id id));
  single = λ t u.
      let unique = sym (released_unique idle m1) ∙ u in
      subst (λ f. length (f t) ≤ 1) (sym (released_private idle m1))
        (elim (Bool-cases (t == s)) [
          | inl e ↦
              rw (e) (omega (arith, length-unlink o.object_id (m.private s), h.single s unique))
          | inr f ↦ rw (f) (h.single t unique)
        ]);
}
  where
    idle : Object
    idle = record o { servant = none; deactivate_do = false }

    m1 : ActiveMap
    m1 = set_private s (unlink o.object_id (m.private s)) m

    at_id :
        (t : ℕ) (id : List ℕ)
        → same_text o.object_id id ≡ true
        → count id (m.private t) ≡ (if t == s then 1 else 0)
    at_id t id e =
        h.linked t id
        ∙ ap (λ x. serves t (object_id_lookup x m.objects)) (sym (same_text_lem o.object_id id e))
        ∙ ap (serves t) here
        ∙ ap (λ x. elim x [ none ↦ 0 | some k ↦ if t == k then 1 else 0 ]) serving

    self : (s == s) ≡ true
    self = ground arith

    go :
        (t : ℕ) (id : List ℕ)
        → ((t == s) ≡ true) ⊎ ((t == s) ≡ false)
        → (same_text o.object_id id ≡ true) ⊎ (same_text o.object_id id ≡ false)
        → count id (if t == s then unlink o.object_id (m.private s) else m.private t)
          ≡ serves t (object_id_lookup id (release idle m1).objects)
    go t id (inl a) (inl e) =
        rw (a, released_unserved t idle m1 id refl e)
          (let one : count id (m.private s) ≡ 1 =
              at_id s id e ∙ ap (λ b. if b then 1 else 0) self in
            ap (λ x. count id (unlink x (m.private s))) (same_text_lem o.object_id id e)
            ∙ count-unlink_self id (m.private s)
            ∙ omega arith)
    go t id (inl a) (inr e) =
        rw (a, released_others idle m1 id e)
          (count-unlink o.object_id id (m.private s) e
            ∙ h.linked s id
            ∙ ap (λ x. serves x (object_id_lookup id m.objects)) (sym (same_number t s a)))
    go t id (inr a) (inl e) =
        rw (a, released_unserved t idle m1 id refl e)
          (at_id t id e ∙ ap (λ b. if b then 1 else 0) a)
    go t id (inr a) (inr e) = rw (a, released_others idle m1 id e) (h.linked t id)
