-- ===== src/Workflow/Validator/Position.antt =====
-- Positions in an order in which sources come first.
use mathlib.Core.List.{append_assoc}
use agenstfer_agi.Base.{
  ℕ, suc, ◌<◌, String, ◌≡◌, refl, true, false, none, some, List, [], ◌∷◌, ◌++◌, arith, ◌==◌, eq_iff,
  eq_refl, Bool-cases, inl, inr, length,
}
use agenstfer_agi.Base.Sets.{elem, Distinct, not-elem_of_Distinct}
use agenstfer_agi.Workflow.Validator.Edges.{Edges, is_edge}
use agenstfer_agi.Workflow.Validator.Kahn.{Topo}
use agenstfer_agi.Workflow.Validator.Checks.{position}

-- `s` stands at an earlier place than `t`.
pub record Precedes (order : List String) (s t : String) : Type 0 where
  pub i : ℕ
  pub j : ℕ
  pub at_source : position s order ≡ some i
  pub at_target : position t order ≡ some j
  pub earlier : i < j

position-left :
    (s : String) (xs ys : List String)
    → elem s xs ≡ true
    → (i : ℕ) × (position s (xs ++ ys) ≡ some i) × (i < length xs)
unfolding elem position
position-left s [] ys h = cc
position-left s (x ∷ xs) ys h = elim (Bool-cases (x == s)) [
  | inl e ↦ (0, ground arith, omega arith)
  | inr e ↦
      let (i, p, q) = position-left s xs ys (ground arith) in
      (suc i, ground arith, omega (arith, q))
]

position-middle :
    (t : String) (xs ys : List String)
    → elem t xs ≡ false
    → position t (xs ++ t ∷ ys) ≡ some (length xs)
unfolding elem position
position-middle t [] ys h = ground (arith, eq_refl t)
position-middle t (x ∷ xs) ys h = ground (arith, position-middle t xs ys)

pub Topo-Precedes :
    (es : Edges) (before xs : List String) (s t : String)
    → Topo es before xs
    → Distinct (before ++ xs)
    → elem t xs ≡ true
    → is_edge s t es ≡ true
    → Precedes (before ++ xs) s t
Topo-Precedes es before [] s t h d m e = unfold elem in cc
Topo-Precedes es before (x ∷ xs) s t h d m e = elim (Bool-cases (x == t)) [
  | inl p ↦
      let q : x ≡ t = (eq_iff x t).0 p in
      let (i, at, low) = position-left s before (x ∷ xs) (h.0 s (rw q e)) in
      record {
        i = i;
        j = length before;
        at_source = at;
        at_target = rw (← q) (position-middle x before xs (not-elem_of_Distinct x before xs d));
        earlier = low;
      }
  | inr p ↦ rw append_assoc at (
      Topo-Precedes es (before ++ x ∷ []) xs s t h.1 (rw append_assoc d)
        (unfold elem in ground arith) e)
]

-- A place is found just for the members.
pub position-of_elem :
    (x : String) (xs : List String) → elem x xs ≡ true → (i : ℕ) × (position x xs ≡ some i)
unfolding elem position
position-of_elem x [] h = cc
position-of_elem x (y ∷ ys) h = elim (Bool-cases (y == x)) [
  | inl e ↦ (0, ground arith)
  | inr e ↦ let (i, p) = position-of_elem x ys (ground arith) in (suc i, ground arith)
]

pub position-none : (x : String) (xs : List String) → elem x xs ≡ false → position x xs ≡ none
unfolding elem position
position-none x [] h = refl
position-none x (y ∷ ys) h = ground (arith, position-none x ys)
