-- ===== src/Template/Find.antt =====
-- The search for the handler of an entry (Template/Walk).
use scst_qla2xxx.Base.{ℕ, ◌<◌, ◌≤◌, ◌≡◌, refl, List, [], ◌∷◌, arith, ◌==◌, if◌then◌else◌}
use scst_qla2xxx.Template.Calls.{Call, other, call_list, find_call, find_entry}

-- The handler that stands beside the type in the list, if one does.
unfoldable pub lookup : List (ℕ × Call) → ℕ → Call
lookup [] type_of = other
lookup ((t, call) ∷ list) type_of =
    let rest = lookup list type_of in if t == type_of then call else rest

abbrev Above : ℕ → List (ℕ × Call) → Type 0
Above t [] = Unit
Above t ((u, call) ∷ list) = (t < u) × Above t list

abbrev Sorted : List (ℕ × Call) → Type 0
Sorted [] = Unit
Sorted ((t, call) ∷ list) = Above t list × Sorted list

lookup-Above :
    (list : List (ℕ × Call)) (t type_of : ℕ)
    → Above t list
    → type_of ≤ t
    → lookup list type_of ≡ other
unfolding lookup
lookup-Above [] t type_of a h = refl
lookup-Above ((u, call) ∷ list) t type_of a h =
    ground (arith, lookup-Above list t type_of a.1 h, a.0)

find_call-lookup :
    (list : List (ℕ × Call)) (type_of : ℕ)
    → Sorted list
    → find_call list type_of ≡ lookup list type_of
unfolding find_call lookup
find_call-lookup [] type_of s = refl
find_call-lookup ((t, call) ∷ list) type_of s =
    ground (arith, find_call-lookup list type_of s.1, lookup-Above list t type_of s.0)

call_list-Sorted : Sorted call_list
unfolding call_list
call_list-Sorted = ground arith

-- For every type, the search of the sorted list of handlers gives the handler that stands beside
-- the type, and the one for other types where the list does not have it.
pub find_entry-lookup : (type_of : ℕ) → find_entry type_of ≡ lookup call_list type_of
unfolding find_entry
find_entry-lookup type_of = find_call-lookup call_list type_of call_list-Sorted
