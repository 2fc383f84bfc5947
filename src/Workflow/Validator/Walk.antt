-- ===== src/Workflow/Validator/Walk.antt =====
-- What the walk from the trigger yields: the nodes that a path of edges reaches.
use agenstfer_agi.Base.{
  ℕ, zero, suc, ◌+◌, ◌≤◌, String, ◌≡◌, refl, true, false, ◌||◌, some, List, [], ◌∷◌, ◌++◌, arith,
  eq_iff, length, length-append, Bool-cases, inl, inr, ap,
}
use agenstfer_agi.Base.Dict.{Dict}
use agenstfer_agi.Base.Sets.{elem, elem-append, elem-snoc, elem-head}
use agenstfer_agi.Workflow.Validator.Graph.{successors, walk}
use agenstfer_agi.Workflow.Validator.Edges.{
  Edges, targets, open_from, is_edge, open_from-snoc, edge-of_target, target-of_edge,
}

-- A path of edges from `a` to an end that the index names.
pub data Reaches (es : Edges) (a : String) : String → Type 0 where
  here : Reaches es a a
  along : {b c : String} → Reaches es a b → is_edge b c es ≡ true → Reaches es a c

-- The result holds the start, only what is reached, and all that its members point to.
pub record Reached (es : Edges) (start : String) (result : List String) : Type 0 where
  pub sound : (x : String) → elem x result ≡ true → Reaches es start x
  pub has_start : elem start result ≡ true
  pub closed : (s t : String) → is_edge s t es ≡ true → elem s result ≡ true → elem t result ≡ true

-- Nothing that a path reaches is missing.
pub Reached-complete :
    {es : Edges} {start : String} {result : List String} {x : String}
    → Reached es start result
    → Reaches es start x
    → elem x result ≡ true
Reached-complete r here = r.has_start
Reached-complete r (along {b} {c} p e) = r.closed b c e (Reached-complete r p)

record Walking (es : Edges) (start : String) (queue reachable : List String) : Type 0 where
  sound : (x : String) → (elem x reachable || elem x queue) ≡ true → Reaches es start x
  has_start : (elem start reachable || elem start queue) ≡ true
  closed :
      (s t : String)
      → is_edge s t es ≡ true
      → elem s reachable ≡ true
      → (elem t reachable || elem t queue) ≡ true

Reaches-eq : {es : Edges} {a : String} (b c : String) → b ≡ c → Reaches es a b → Reaches es a c
Reaches-eq b c e r = rw (← e) r

module _ (es : Edges) (start : String) where
  skip-Walking :
      (x : String) (queue reachable : List String)
      → elem x reachable ≡ true
      → Walking es start (x ∷ queue) reachable
      → Walking es start queue reachable
  unfolding elem
  skip-Walking x queue reachable e h = record {
    sound = λ y m. h.sound y (ground arith);
    has_start = ground (arith, h.has_start, eq_iff x start);
    closed = λ s t k m. ground (arith, h.closed s t k m, eq_iff x t);
  }

  take-Walking :
      (x : String) (queue reachable ts : List String)
      → ts ≡ targets x es
      → Walking es start (x ∷ queue) reachable
      → Walking es start (queue ++ ts) (reachable ++ x ∷ [])
  take-Walking x queue reachable ts e h = record {
    sound = λ y m. elim (Bool-cases (elem y ts)) [
      | inl k ↦ along (h.sound x (rw elem-head (ground arith))) (edge-of_target x y es (rw e at k))
      | inr k ↦
          h.sound y (unfold elem in ground (arith, elem-snoc y x reachable, elem-append y queue ts))
    ];
    has_start =
        unfold elem in
        ground (arith, h.has_start, elem-snoc start x reachable, elem-append start queue ts);
    closed = λ s t k m. elim (Bool-cases (elem s reachable)) [
      | inl old ↦
          unfold elem in
          ground (arith, h.closed s t k old, elem-snoc t x reachable, elem-append t queue ts)
      | inr new ↦ ground (
        arith,
        elem-append t (reachable ++ x ∷ []) (queue ++ ts),
        elem-append t queue ts,
        after s t k m new,
      )
    ];
  }
    where
      after :
          (s t : String)
          → is_edge s t es ≡ true
          → elem s (reachable ++ x ∷ []) ≡ true
          → elem s reachable ≡ false
          → elem t ts ≡ true
      after s t k m new =
          rw e (target-of_edge x t es (ground (arith, elem-snoc s x reachable, eq_iff x s)))

  module _ (outgoing : Dict (List String))
      (lists : (x : String) → successors outgoing x ≡ targets x es) where
    walk_skip :
        (fuel : ℕ) (x : String) (queue reachable : List String)
        → elem x reachable ≡ true
        → walk (suc fuel) outgoing (x ∷ queue) reachable ≡ walk fuel outgoing queue reachable
    unfolding walk
    walk_skip fuel x queue reachable seen = rw (seen, walk)

    walk_take :
        (fuel : ℕ) (x : String) (queue reachable : List String)
        → elem x reachable ≡ false
        → walk (suc fuel) outgoing (x ∷ queue) reachable
          ≡ walk fuel outgoing (queue ++ successors outgoing x) (reachable ++ x ∷ [])
    unfolding walk
    walk_take fuel x queue reachable new = rw (new, walk)

    walk-Reached :
        (fuel : ℕ) (queue reachable : List String)
        → length queue + open_from reachable es ≤ fuel
        → Walking es start queue reachable
        → (result : List String) × (walk fuel outgoing queue reachable ≡ some result)
          × Reached es start result
    walk-Reached fuel [] reachable f h = (
      reachable,
      unfold walk in refl,
      unfold elem in
          (record {
            sound = λ x m. h.sound x (ground arith);
            has_start = ground (arith, h.has_start);
            closed = λ s t e m. ground (arith, h.closed s t e m);
          }),
    )
    walk-Reached zero (x ∷ queue) reachable f h = absurd (omega arith)
    walk-Reached (suc fuel) (x ∷ queue) reachable f h = elim (Bool-cases (elem x reachable)) [
      | inl seen ↦
          rw (walk_skip fuel x queue reachable seen) (
            walk-Reached fuel queue reachable (omega arith) (skip-Walking x queue reachable seen h))
      | inr new ↦ rw (walk_take fuel x queue reachable new) (
          walk-Reached fuel (queue ++ successors outgoing x) (reachable ++ x ∷ [])
            (omega (
              arith,
              length-append queue (successors outgoing x),
              ap length (lists x),
              open_from-snoc reachable x es new,
            ))
            (take-Walking x queue reachable (successors outgoing x) (lists x) h))
    ]

    -- From the start alone, one more round than there are edges is enough.
    pub walk_start :
        (fuel : ℕ)
        → suc (open_from [] es) ≤ fuel
        → (result : List String) × (walk fuel outgoing (start ∷ []) [] ≡ some result)
          × Reached es start result
    walk_start fuel f = walk-Reached fuel (start ∷ []) [] (omega arith) (
        unfold elem in
        (record {
          sound = λ x m. Reaches-eq start x (ground (arith, eq_iff start x)) here;
          has_start = ground (arith, eq_iff start start);
          closed = λ s t e m. cc;
        }))
