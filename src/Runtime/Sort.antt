-- ===== src/Runtime/Sort.antt =====
-- `sortModules` of pkg/lakta/runtime.go: Kahn's algorithm over the declared dependencies. The
-- slices `edges` and `inDegree`, made once with a cell for each module, are functions of the index.
mod Kahn
pub mod Owner
mod Build
mod Links
mod Order
pub mod Topology
pub mod Stable
pub mod Places
mod Tests
use lakta.Prelude.{
  ℕ, zero, suc, ◌+◌, ◌-◌, String, Option, none, some, List, [], ◌∷◌, ◌++◌, ◌==◌, nat_keyed,
  if◌then◌else◌, length, get_elem?, update, Result, ok, err, ◌>>=◌,
}
use lakta.Runtime.Module.{Module, Meta, meta_of, list_or_nil, required_or_nil, optional_or_nil}

-- `fault` stands for an index out of range or a loop that does not end.
pub data SortError : Type 0 where
  unmet : String → ℕ → SortError
  cycle : SortError
  fault : SortError

abbrev pub Owners : Type 0
Owners = ℕ → Option ℕ

-- `for _, t := range provides { typeOwner[t] = i }`
unfoldable pub own : ℕ → List ℕ → Owners → Owners
own i [] owner = owner
own i (t ∷ ts) owner = own i ts (update owner t (some i))

unfoldable pub type_owner : ℕ → List Module → Owners → Owners
type_owner i [] owner = owner
type_owner i (m ∷ ms) owner = type_owner (suc i) ms (own i (list_or_nil m.provides) owner)

pub record Graph : Type 0 where
  pub edges : ℕ → List ℕ
  pub in_degree : ℕ → ℕ

abbrev pub no_edges : Graph
no_edges = record { edges = λ i. []; in_degree = λ i. 0 }

-- A module may provide what it needs itself: no edge then.
unfoldable pub link : ℕ → ℕ → Graph → Graph
link owner i g = if owner == i then g else record {
  edges = update g.edges owner (g.edges owner ++ i ∷ []);
  in_degree = update g.in_degree i (g.in_degree i + 1);
}

unfoldable pub link_required : Owners → String → ℕ → List ℕ → Graph → Result SortError Graph
link_required owner name i [] g = ok g
link_required owner name i (t ∷ ts) g = elim (owner t) [
  | none ↦ err (unmet name t)
  | some o ↦ link_required owner name i ts (link o i g)
]

unfoldable pub link_optional : Owners → ℕ → List ℕ → Graph → Graph
link_optional owner i [] g = g
link_optional owner i (t ∷ ts) g =
    link_optional owner i ts (elim (owner t) [ none ↦ g | some o ↦ link o i g ])

unfoldable pub link_modules : Owners → ℕ → List Module → Graph → Result SortError Graph
link_modules owner i [] g = ok g
link_modules owner i (m ∷ ms) g =
    link_required owner m.type_name i (required_or_nil m.dependencies) g >>= λ g'.
    link_modules owner (suc i) ms (link_optional owner i (optional_or_nil m.dependencies) g')

-- The indices with no incoming edge, in the original order.
unfoldable pub seed : (ℕ → ℕ) → ℕ → List Module → List ℕ
seed in_degree i [] = []
seed in_degree i (m ∷ ms) =
    let rest = seed in_degree (suc i) ms in if in_degree i == 0 then i ∷ rest else rest

-- `for _, next := range edges[idx]`: the counts and the queue after it.
unfoldable pub release : List ℕ → (ℕ → ℕ) → List ℕ → (ℕ → ℕ) × List ℕ
release [] in_degree queue = (in_degree, queue)
release (next ∷ rest) in_degree queue =
    let left = in_degree next - 1 in
    release rest (update in_degree next left) (if left == 0 then queue ++ next ∷ [] else queue)

-- `for len(queue) > 0`, on fuel; `none` is fuel that ran out.
unfoldable pub drain : ℕ → (ℕ → List ℕ) → List ℕ → (ℕ → ℕ) → List ℕ → Option (List ℕ)
drain zero edges [] in_degree sorted = some sorted
drain zero edges (idx ∷ queue) in_degree sorted = none
drain (suc fuel) edges [] in_degree sorted = some sorted
drain (suc fuel) edges (idx ∷ queue) in_degree sorted =
    let freed = release (edges idx) in_degree queue in
    drain fuel edges freed.1 freed.0 (sorted ++ idx ∷ [])

unfoldable pub check_complete : ℕ → Option (List ℕ) → Result SortError (List ℕ)
check_complete n none = err fault
check_complete n (some sorted) = if length sorted == n then ok sorted else err cycle

-- The indices of the modules in the order of `sorted`.
unfoldable pub sort_indices : List Module → Result SortError (List ℕ)
sort_indices ms = link_modules (type_owner 0 ms (λ t. none)) 0 ms no_edges >>= λ g.
    check_complete (length ms) (drain (length ms) g.edges (seed g.in_degree 0 ms) g.in_degree [])

-- `modules[idx]` and `metaByIdx[idx]` for the indices in turn.
unfoldable pub pick : List Module → List ℕ → Result SortError (List (Module × Meta))
pick ms [] = ok []
pick ms (i ∷ is) = elim (get_elem? ms i) [
  | none ↦ err fault
  | some m ↦ pick ms is >>= λ rest. ok ((m, meta_of m) ∷ rest)
]

unfoldable pub sort_modules : List Module → Result SortError (List (Module × Meta))
sort_modules ms = sort_indices ms >>= pick ms

-- `Validate`: the sort alone, for its error.
unfoldable pub validate : List Module → Option SortError
validate ms = elim (sort_modules ms) [ ok _ ↦ none | err e ↦ some e ]
