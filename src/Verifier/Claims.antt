-- ===== src/Verifier/Claims.antt =====
-- Claims by dotted paths, and lists of scopes and roles (registry.go).
use lakta.Prelude.{
  ℕ, Bool, ◌||◌, ◌&&◌, leb, Option, none, some, List, [], ◌∷◌, ◌==◌, nat_keyed, bytes_keyed,
  if◌then◌else◌,
}

-- `any` as a decoded claim. `strings` is a `[]string`; every other value is `other`.
mutual
  pub data Claim : Type 0 where
    text : List ℕ → Claim
    strings : List (List ℕ) → Claim
    array : Elements → Claim
    object : Members → Claim
    other : Claim

  pub data Elements : Type 0 where
    nil : Elements
    cons : Claim → Elements → Elements

  pub data Members : Type 0 where
    end : Members
    member : List ℕ → Claim → Members → Members

abbrev pub get_member : Members → List ℕ → Option Claim
get_member end k = none
get_member (member j c ms) k = if j == k then some c else get_member ms k

-- `strings.Split(path, ".")`: the text up to the first dot, and what follows each dot.
abbrev pub push_front : ℕ → List (List ℕ) → List (List ℕ)
push_front c [] = (c ∷ []) ∷ []
push_front c (s ∷ ss) = (c ∷ s) ∷ ss

unfoldable pub split : List ℕ → List (List ℕ)
split [] = [] ∷ []
split (c ∷ s) = let rest = split s in if c == b'.' then [] ∷ rest else push_front c rest

unfoldable pub as_string_map : Claim → Option Members
as_string_map (object ms) = some ms
as_string_map c = none

unfoldable pub walk_path : List (List ℕ) → Claim → Option Claim
unfolding as_string_map
walk_path [] current = some current
walk_path (seg ∷ segs) current = elim (as_string_map current) [
  | none ↦ none
  | some ms ↦ elim (get_member ms seg) [ none ↦ none | some c ↦ walk_path segs c ]
]

-- `none` is nil.
unfoldable pub claim_by_path : Members → List ℕ → Option Claim
unfolding split walk_path
claim_by_path claims [] = none
claim_by_path claims (c ∷ path) = walk_path (split (c ∷ path)) (object claims)

-- Go's white space, in ASCII.
abbrev pub is_space : ℕ → Bool
is_space c = (c == b' ') || (leb 9 c && leb c 13)

abbrev pub drop_empty : List (List ℕ) → List (List ℕ)
drop_empty [] = []
drop_empty ([] ∷ ss) = drop_empty ss
drop_empty ((c ∷ s) ∷ ss) = (c ∷ s) ∷ drop_empty ss

abbrev pub split_space : List ℕ → List (List ℕ)
split_space [] = [] ∷ []
split_space (c ∷ s) =
    let rest = split_space s in if is_space c then [] ∷ rest else push_front c rest

-- `strings.Fields`
unfoldable pub fields : List ℕ → List (List ℕ)
fields s = drop_empty (split_space s)

unfoldable pub any_slice_to_strings : Elements → List (List ℕ)
any_slice_to_strings nil = []
any_slice_to_strings (cons (text s) cs) = s ∷ any_slice_to_strings cs
any_slice_to_strings (cons c cs) = any_slice_to_strings cs

unfoldable pub scope_values : Option Claim → List (List ℕ)
unfolding fields any_slice_to_strings
scope_values (some (text s)) = fields s
scope_values (some (strings ss)) = ss
scope_values (some (array cs)) = any_slice_to_strings cs
scope_values c = []

unfoldable pub role_values : Option Claim → List (List ℕ)
unfolding any_slice_to_strings
role_values (some (text s)) = s ∷ []
role_values (some (strings ss)) = ss
role_values (some (array cs)) = any_slice_to_strings cs
role_values c = []
