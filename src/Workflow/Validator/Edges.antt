-- ===== src/Workflow/Validator/Edges.antt =====
-- The accepted edges as pairs, and what the searches count on them.
use agenstfer_agi.Base.{
  ℕ, suc, ◌+◌, ◌<◌, ◌≤◌, String, ◌≡◌, Bool, true, false, ◌&&◌, not, List, [], ◌∷◌, ◌++◌, arith,
  if◌then◌else◌, ◌==◌, eq_iff, length, Bool-cases, inl, inr,
}
use agenstfer_agi.Base.Sets.{elem, count, elem-snoc}

abbrev pub Edges : Type 0
Edges = List (String × String)

-- The targets of the edges from `x`, in their order.
unfoldable pub targets : String → Edges → List String
targets x [] = []
targets x ((s, t) ∷ es) = let rest = targets x es in if s == x then t ∷ rest else rest

-- How many edges enter `x` from a node outside `done`.
unfoldable pub open_into : List String → String → Edges → ℕ
open_into done x [] = 0
open_into done x ((s, t) ∷ es) =
    let rest = open_into done x es in if t == x && not (elem s done) then suc rest else rest

-- How many edges leave a node outside `done`.
unfoldable pub open_from : List String → Edges → ℕ
open_from done [] = 0
open_from done ((s, t) ∷ es) =
    let rest = open_from done es in if elem s done then rest else suc rest

-- `(s, t)` is an edge.
unfoldable pub is_edge : String → String → Edges → Bool
is_edge s t [] = false
is_edge s t ((a, b) ∷ es) = if a == s && b == t then true else is_edge s t es

-- A node that is done takes its edges away.
pub open_into-snoc :
    (done : List String) (n x : String) (es : Edges)
    → elem n done ≡ false
    → open_into done x es ≡ open_into (done ++ n ∷ []) x es + count x (targets n es)
unfolding open_into targets count
open_into-snoc done n x [] h = omega arith
open_into-snoc done n x ((s, t) ∷ es) h =
    ground (arith, open_into-snoc done n x es, elem-snoc s n done, eq_iff n s, eq_iff s n)

pub open_from-snoc :
    (done : List String) (n : String) (es : Edges)
    → elem n done ≡ false
    → open_from done es ≡ open_from (done ++ n ∷ []) es + length (targets n es)
unfolding open_from targets
open_from-snoc done n [] h = omega arith
open_from-snoc done n ((s, t) ∷ es) h =
    ground (arith, open_from-snoc done n es, elem-snoc s n done, eq_iff n s, eq_iff s n)

pub open_from-le : (done : List String) (es : Edges) → open_from done es ≤ length es
unfolding open_from
open_from-le done [] = omega arith
open_from-le done ((s, t) ∷ es) = ground (arith, open_from-le done es)

-- With no open edge into `x`, the source of every edge into `x` is done.
pub source-done :
    (done : List String) (s x : String) (es : Edges)
    → open_into done x es ≡ 0
    → is_edge s x es ≡ true
    → elem s done ≡ true
unfolding open_into is_edge
source-done done s x [] h e = cc
source-done done s x ((a, b) ∷ es) h e =
    ground (arith, source-done done s x es, eq_iff a s, eq_iff b x)

-- An open edge has a source outside `done`.
pub open_source :
    (done : List String) (x : String) (es : Edges)
    → 0 < open_into done x es
    → (s : String) × (is_edge s x es ≡ true) × (elem s done ≡ false)
unfolding open_into is_edge
open_source done x [] h = absurd (omega arith)
open_source done x ((a, b) ∷ es) h = elim (Bool-cases (b == x && not (elem a done))) [
  | inl e ↦ (a, ground (arith, eq_iff a a), ground arith)
  | inr e ↦ let (s, p, q) = open_source done x es (ground arith) in (s, ground arith, q)
]

pub edge-of_target :
    (s t : String) (es : Edges) → elem t (targets s es) ≡ true → is_edge s t es ≡ true
unfolding elem targets is_edge
edge-of_target s t [] h = cc
edge-of_target s t ((a, b) ∷ es) h = ground (arith, edge-of_target s t es)

pub target-of_edge :
    (s t : String) (es : Edges) → is_edge s t es ≡ true → elem t (targets s es) ≡ true
unfolding elem targets is_edge
target-of_edge s t [] h = cc
target-of_edge s t ((a, b) ∷ es) h = ground (arith, target-of_edge s t es)
