-- ===== src/Name/Tests.antt =====
-- src/services/name at concrete names and contexts.
use orbit.Base.{
  ℕ, ◌≡◌, refl, [], ◌∷◌, Bool, true, false, Option, some, none, arith, ◌↔◌, List, ◌==◌,
  if◌then◌else◌, map,
}
use orbit.Name.{Component, Name}
use orbit.Name.Text.{string_to_name, name_to_string, parse_from, component_to_string}
use orbit.Name.Text.RoundTrip.{AllKept, string_to_name-name_to_string}
use orbit.Name.Server.{
  context, other, Registered, World, Answer, nothing, object, raised, object_not_exist, not_found,
  missing_node, not_context, Op, bind, bind_context, unbind, resolve, walk, bind_last, unbind_last,
}
use orbit.Name.Server.Resolving.{resolve-bind, resolve-unbind}
use orbit.Name.Server.Updates.{Updates}
use orbit.Name.Server.Listing.{binding_of, list, print_all, print_all-list}
use orbit.Name.Server.Faults.{bind_context-compound}

abbrev a : Component
a = record { id = b'a' ∷ []; kind = [] }

abbrev dot_x : Component
dot_x = record { id = b'.' ∷ b'x' ∷ []; kind = b'k' ∷ [] }

abbrev b : Component
b = record { id = b'b' ∷ []; kind = [] }

-- The text /a/\.x.k
printed :
    name_to_string (a ∷ dot_x ∷ []) ≡ b'/' ∷ b'a' ∷ b'/' ∷ b'\\' ∷ b'.' ∷ b'x' ∷ b'.' ∷ b'k' ∷ []
unfolding name_to_string component_to_string
printed = refl

unescaped :
    string_to_name (b'a' ∷ b'/' ∷ b'/' ∷ b'.' ∷ []) ≡ some (a ∷ record { id = []; kind = [] } ∷ [])
unfolding string_to_name parse_from
unescaped = refl

string_to_name-name_to_string_example :
    (string_to_name (name_to_string (a ∷ dot_x ∷ [])) ≡ some (a ∷ dot_x ∷ []))
    ↔ AllKept (a ∷ dot_x ∷ [])
string_to_name-name_to_string_example = string_to_name-name_to_string (a ∷ dot_x ∷ [])

-- Context 0 binds a to context 1, which is empty.
abbrev sub : Registered
sub = record { nc = a; obj = context 1; is_subctx = true }

abbrev tables : ℕ → Option (List Registered)
tables j = if j == 0 then some (sub ∷ []) else if j == 1 then some [] else none

abbrev world : World
world = record { names = tables; next = 2 }

abbrev alive : ℕ → Bool
alive j = false

abbrev refuses : ℕ → Op → Name → Answer
refuses j op n = raised object_not_exist

abbrev bound : World
bound = (walk alive refuses (bind (other 7)) world 0 (a ∷ b ∷ [])).0

bound_answer : walk alive refuses (bind (other 7)) world 0 (a ∷ b ∷ []) ≡ (bound, nothing)
unfolding walk bind_last
bound_answer = refl

resolve-bind_example : walk alive refuses resolve bound 0 (a ∷ b ∷ []) ≡ (bound, object (other 7))
resolve-bind_example =
    resolve-bind alive refuses world bound 0 (a ∷ b ∷ []) (other 7) (λ j op n. tt) bound_answer refl

abbrev unbound : World
unbound = (walk alive refuses unbind bound 0 (a ∷ b ∷ [])).0

unbound_answer : walk alive refuses unbind bound 0 (a ∷ b ∷ []) ≡ (unbound, nothing)
unfolding walk bind_last unbind_last
unbound_answer = refl

resolve-unbind_example :
    (rest : Name) × (walk alive refuses resolve unbound 0 (a ∷ b ∷ [])
      ≡ (unbound, raised (not_found missing_node rest)))
resolve-unbind_example =
    resolve-unbind alive refuses bound unbound 0 (a ∷ b ∷ []) (λ j op n. tt) unbound_answer

bind_context-compound_example :
    (w' : World) × (walk alive refuses (bind_context (context 0)) world 0 (a ∷ b ∷ [])
      ≡ (w', nothing))
    × (walk alive refuses (bind (other 7)) w' 0 (a ∷ b ∷ a ∷ [])
        ≡ (w', raised (not_found not_context (b ∷ a ∷ []))))
bind_context-compound_example =
    bind_context-compound alive refuses world 0 1 a b a (sub ∷ []) [] sub (context 0) (other 7) refl
      refl refl refl refl refl

abbrev three : List Registered
three =
    sub
    ∷ record { nc = b; obj = other 7; is_subctx = false }
    ∷ record { nc = dot_x; obj = other 8; is_subctx = false }
    ∷ []

print_all-list_example :
    (let (bl, bi) = list three 2 in print_all 5 2 bl bi ≡ some (map binding_of three))
print_all-list_example = print_all-list three 2 5 (omega arith) (omega arith)
