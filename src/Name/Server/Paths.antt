-- ===== src/Name/Server/Paths.antt =====
-- src/services/name/orbit-name-server.c: tables of names, and the way that a name leads.
use orbit.Base.{
  ℕ, ◌≡◌, ◌≢◌, refl, sym, ap, ◌∙◌, subst, true, false, ◌&&◌, none, some, List, [], ◌∷◌,
  if◌then◌else◌, Bool-cases, inl, inr, same_text, same_text_lem, same_text_self,
}
use orbit.Name.{Component, Name}
use orbit.Name.Server.{context, Registered, World, same_component, lookup, remove}

pub same_component_lem : (a b : Component) → same_component a b ≡ true → a ≡ b
same_component_lem a b h = elim (Bool-cases (same_text a.id b.id)) [
  | inl x ↦
      let y : same_text a.kind b.kind ≡ true =
        subst (λ t. (t && same_text a.kind b.kind) ≡ true) x h in
      λ i. record { id = same_text_lem a.id b.id x i; kind = same_text_lem a.kind b.kind y i }
  | inr x ↦ let e : false ≡ true = subst (λ t. (t && same_text a.kind b.kind) ≡ true) x h in cc
]

pub same_component_self : (a : Component) → same_component a a ≡ true
same_component_self a = rw (same_text_self a.id, same_text_self a.kind) refl

-- What is found after an entry has gone, or has been replaced.
pub lookup-remove_self : (c : Component) (rs : List Registered) → lookup c (remove c rs) ≡ none
lookup-remove_self c [] = refl
lookup-remove_self c (r ∷ rs) = elim (Bool-cases (same_component r.nc c)) [
  | inl e ↦ rw (e) (lookup-remove_self c rs)
  | inr e ↦ rw (e, e) (lookup-remove_self c rs)
]

-- A component is the same as at most one of two that differ.
apart :
    (a c d : Component)
    → same_component a c ≡ true
    → same_component c d ≡ false
    → same_component a d ≡ false
apart a c d e f = subst (λ x. same_component x d ≡ false) (sym (same_component_lem a c e)) f

pub lookup-remove :
    (c d : Component) (rs : List Registered)
    → same_component c d ≡ false
    → lookup d (remove c rs) ≡ lookup d rs
lookup-remove c d [] e = refl
lookup-remove c d (r ∷ rs) e = elim (Bool-cases (same_component r.nc c)) [
  | inl f ↦ rw (f, apart r.nc c d f e) (lookup-remove c d rs e)
  | inr f ↦ rw (f) (ap (λ t. if same_component r.nc d then some r else t) (lookup-remove c d rs e))
]

-- A name leads from a context to a place: a context and the last component. The contexts on the way
-- are those of the server.
abbrev pub LeadsTo : World → ℕ → Name → ℕ → Component → Type 0
LeadsTo w i [] k c = ⊥
LeadsTo w i (d ∷ []) k c = (i ≡ k) × (d ≡ c)
LeadsTo w i (d ∷ e ∷ n) k c =
    (rs : List Registered) × (r : Registered) × (j : ℕ) × (w.names i ≡ some rs)
    × (lookup d rs ≡ some r)
    × (r.obj ≡ context j)
    × LeadsTo w j (e ∷ n) k c

-- The contexts on the way exist.
pub LeadsTo-exists :
    (w : World) (i : ℕ) (n : Name) (k : ℕ) (c : Component) (rs : List Registered)
    → LeadsTo w i n k c
    → w.names k ≡ some rs
    → w.names i ≢ none
LeadsTo-exists w i [] k c rs l e none_there = elim l [ ]
LeadsTo-exists w i (d ∷ []) k c rs (same, _) e none_there =
    let here : w.names i ≡ some rs = ap w.names same ∙ e in cc
LeadsTo-exists w i (d ∷ f ∷ n) k c rs (qs, r, j, here, _, _, _) e none_there = cc
