-- ===== src/Workflow/Validator/Kahn.antt =====
-- What Kahn's loop yields, over the edges that its tables hold.
use mathlib.Core.List.{append_assoc, append-nil}
use agenstfer_agi.Base.{
  ℕ, zero, suc, ◌+◌, ◌-◌, ◌<◌, ◌≤◌, String, ◌≡◌, refl, true, false, some, List, [], ◌∷◌, ◌++◌,
  arith, if◌then◌else◌, ◌==◌, eq_iff, eq_refl, length, length-append, Bool-cases, nat_beq, inl, inr,
}
use agenstfer_agi.Base.Dict.{Dict, put, get-put}
use agenstfer_agi.Base.Sets.{
  elem, count, elem-append, elem-snoc, elem-head, Distinct, Distinct-snoc, not-elem_of_Distinct,
  Subset, Subset-snoc, length-le-Subset,
}
use agenstfer_agi.Workflow.Validator.Graph.{successors, degree, release, kahn}
use agenstfer_agi.Workflow.Validator.Edges.{
  Edges, targets, open_into, is_edge, open_into-snoc, source-done,
}

pub degree-put :
    (k x : String) (n : ℕ) (d : Dict ℕ) → degree (put k n d) x ≡ (if k == x then n else degree d x)
unfolding degree
degree-put k x n d = ground (arith, get-put k x n d)

-- While the targets `ts` of the last node of `order` are still to be released; `taken` is the order
-- with the queue behind it.
pub record Inner (es : Edges) (nodes order taken ts : List String) (indegree : Dict ℕ)
    : Type 0 where
  pub degrees : (x : String) → degree indegree x ≡ open_into order x es + count x ts
  pub ready : (x : String) → elem x taken ≡ true → open_into order x es + count x ts ≡ 0
  pub waiting :
      (x : String)
      → elem x nodes ≡ true
      → elem x taken ≡ false
      → 0 < open_into order x es + count x ts
  pub distinct : Distinct taken
  pub known : Subset taken nodes
  pub targets_known : Subset ts nodes

module _ (es : Edges) (nodes order : List String) where
  module _ (t : String) (ts taken : List String) (indegree : Dict ℕ)
      (h : Inner es nodes order taken (t ∷ ts) indegree) where
    fresh : elem t taken ≡ false
    unfolding count
    fresh = elim (Bool-cases (elem t taken)) [
      | inl e ↦ absurd (ground (arith, h.ready t e, eq_refl t))
      | inr e ↦ e
    ]

    left_lem : degree indegree t - 1 ≡ open_into order t es + count t ts
    unfolding count
    left_lem = ground (arith, h.degrees t, eq_refl t)

    degrees_next :
        (x : String)
        → degree (put t (degree indegree t - 1) indegree) x ≡ open_into order x es + count x ts
    unfolding count
    degrees_next x =
        ground (
          arith,
          degree-put t x (degree indegree t - 1) indegree,
          left_lem,
          h.degrees x,
          eq_iff t x,
        )

    targets_next : Subset ts nodes
    unfolding elem
    targets_next x m = ground (arith, h.targets_known x)

    keep :
        nat_beq (degree indegree t - 1) 0 ≡ false
        → Inner es nodes order taken ts (put t (degree indegree t - 1) indegree)
    unfolding count
    keep c = record {
      degrees = degrees_next;
      ready = λ x m. ground (arith, h.ready x);
      waiting = λ x k m. ground (arith, h.waiting x, left_lem, eq_iff t x);
      distinct = h.distinct;
      known = h.known;
      targets_known = targets_next;
    }

    enqueue :
        nat_beq (degree indegree t - 1) 0 ≡ true
        → Inner es nodes order (taken ++ t ∷ []) ts (put t (degree indegree t - 1) indegree)
    unfolding count
    enqueue c = record {
      degrees = degrees_next;
      ready = λ x m. ground (arith, h.ready x, left_lem, elem-snoc x t taken, eq_iff t x);
      waiting = λ x k m. ground (arith, h.waiting x, elem-snoc x t taken, eq_iff t x);
      distinct = Distinct-snoc t taken h.distinct fresh;
      known = Subset-snoc taken nodes t h.known (h.targets_known t (elem-head t ts));
      targets_known = targets_next;
    }

  release_enqueue :
      (t : String) (ts queue : List String) (indegree : Dict ℕ)
      → nat_beq (degree indegree t - 1) 0 ≡ true
      → release (t ∷ ts) queue indegree
        ≡ release ts (queue ++ t ∷ []) (put t (degree indegree t - 1) indegree)
  unfolding release
  release_enqueue t ts queue indegree c = ground arith

  release_keep :
      (t : String) (ts queue : List String) (indegree : Dict ℕ)
      → nat_beq (degree indegree t - 1) 0 ≡ false
      → release (t ∷ ts) queue indegree ≡ release ts queue (put t (degree indegree t - 1) indegree)
  unfolding release
  release_keep t ts queue indegree c = ground arith

  release-Inner :
      (ts queue : List String) (indegree : Dict ℕ)
      → Inner es nodes order (order ++ queue) ts indegree
      → let (queue', indegree') = release ts queue indegree in
        Inner es nodes order (order ++ queue') [] indegree'
  release-Inner [] queue indegree h = unfold release in h
  release-Inner (t ∷ ts) queue indegree h =
      let left = degree indegree t - 1 in
      elim (Bool-cases (nat_beq left 0)) [
        | inl c ↦ rw (release_enqueue t ts queue indegree c) (
            release-Inner ts (queue ++ t ∷ []) (put t left indegree)
              (rw (← append_assoc) (enqueue t ts (order ++ queue) indegree h c)))
        | inr c ↦
            rw (release_keep t ts queue indegree c) (
              release-Inner ts queue (put t left indegree)
                (keep t ts (order ++ queue) indegree h c))
      ]

-- Each node of the list comes after the sources of its edges, the nodes `before` among them.
abbrev pub Topo : Edges → List String → List String → Type 0
Topo es before [] = Unit
Topo es before (x ∷ xs) =
    ((s : String) → is_edge s x es ≡ true → elem s before ≡ true) × Topo es (before ++ x ∷ []) xs

Topo-snoc :
    (es : Edges) (before xs : List String) (x : String)
    → Topo es before xs
    → ((s : String) → is_edge s x es ≡ true → elem s (before ++ xs) ≡ true)
    → Topo es before (xs ++ x ∷ [])
Topo-snoc es before [] x h k = (λ s e. rw append-nil at (k s e), tt)
Topo-snoc es before (y ∷ xs) x h k =
    (h.0, Topo-snoc es (before ++ y ∷ []) xs x h.1 (λ s e. rw append_assoc (k s e)))

-- What the loop leaves: an order in which sources come first, and outside it only nodes that some
-- node outside it points to.
pub record Done (es : Edges) (nodes order : List String) : Type 0 where
  pub distinct : Distinct order
  pub known : Subset order nodes
  pub topo : Topo es [] order
  pub blocked : (x : String) → elem x nodes ≡ true → elem x order ≡ false → 0 < open_into order x es

module _ (es : Edges) (nodes : List String) (outgoing : Dict (List String))
    (lists : (x : String) → successors outgoing x ≡ targets x es)
    (bounded : (x : String) → Subset (targets x es) nodes) where
  pop-Inner :
      (order queue : List String) (x : String) (indegree : Dict ℕ)
      → Inner es nodes order (order ++ x ∷ queue) [] indegree
      → Inner es nodes (order ++ x ∷ []) ((order ++ x ∷ []) ++ queue) (targets x es) indegree
  unfolding count
  pop-Inner order queue x indegree h =
      let out : elem x order ≡ false = not-elem_of_Distinct x order queue h.distinct in
      rw append_assoc (record {
        degrees = λ y. omega (arith, h.degrees y, open_into-snoc order x y es out);
        ready = λ y m. omega (arith, h.ready y m, open_into-snoc order x y es out);
        waiting = λ y k m. omega (arith, h.waiting y k m, open_into-snoc order x y es out);
        distinct = h.distinct;
        known = h.known;
        targets_known = bounded x;
      })

  pub kahn-Done :
      (fuel : ℕ) (order queue : List String) (indegree : Dict ℕ)
      → length nodes ≤ length order + fuel
      → Inner es nodes order (order ++ queue) [] indegree
      → Topo es [] order
      → (result : List String) × (kahn fuel outgoing queue order indegree ≡ some result)
        × Done es nodes result
  unfolding kahn count
  kahn-Done fuel order [] indegree f h topo = (order, refl, finished (rw append-nil at h))
    where
      finished : Inner es nodes order order [] indegree → Done es nodes order
      finished h = record {
        distinct = h.distinct;
        known = h.known;
        topo = topo;
        blocked = λ x k m. omega (arith, h.waiting x k m);
      }
  kahn-Done zero order (x ∷ queue) indegree f h topo = absurd (
      omega (
        arith,
        length-append order (x ∷ queue),
        length-le-Subset (order ++ x ∷ queue) nodes h.distinct h.known,
      ))
  kahn-Done (suc fuel) order (x ∷ queue) indegree f h topo =
      let ts = successors outgoing x in
      kahn-Done fuel (order ++ x ∷ []) (release ts queue indegree).0 (release ts queue indegree).1
        (omega (arith, f, length-append order (x ∷ [])))
        (release-Inner es nodes (order ++ x ∷ []) ts queue indegree
          (rw (lists x) (pop-Inner order queue x indegree h)))
        (Topo-snoc es [] order x topo λ s e.
          source-done order s x es
            (omega (arith, h.ready x (rw elem-append (ground (arith, elem-head x queue))))) e)
