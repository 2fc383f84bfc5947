-- ===== src/Workflow/Validator/Graph.antt =====
-- The two searches of validate_workflow: Kahn's loop and the walk from the trigger.
use agenstfer_agi.Base.{
  ℕ, zero, suc, ◌-◌, String, Option, none, some, List, [], ◌∷◌, ◌++◌, if◌then◌else◌, nat_beq,
}
use agenstfer_agi.Base.Dict.{Dict, get, put}
use agenstfer_agi.Base.Sets.{elem}

-- `outgoing[node_id]` of a `defaultdict(list)`.
unfoldable pub successors : Dict (List String) → String → List String
successors d x = elim (get x d) [ none ↦ [] | some ts ↦ ts ]

unfoldable pub degree : Dict ℕ → String → ℕ
degree d x = elim (get x d) [ none ↦ 0 | some n ↦ n ]

-- `for target in outgoing[node_id]`: a node whose last open edge goes is queued.
unfoldable pub release : List String → List String → Dict ℕ → List String × Dict ℕ
release [] queue indegree = (queue, indegree)
release (t ∷ ts) queue indegree =
    let left = degree indegree t - 1 in
    release ts (if nat_beq left 0 then queue ++ t ∷ [] else queue) (put t left indegree)

-- `while queue` of the topological order; `none` if the fuel runs out.
unfoldable pub kahn :
    ℕ → Dict (List String) → List String → List String → Dict ℕ → Option (List String)
kahn fuel outgoing [] order indegree = some order
kahn zero outgoing (x ∷ queue) order indegree = none
kahn (suc fuel) outgoing (x ∷ queue) order indegree =
    let (queue', indegree') = release (successors outgoing x) queue indegree in
    kahn fuel outgoing queue' (order ++ x ∷ []) indegree'

-- `while queue` of the reachable set.
unfoldable pub walk : ℕ → Dict (List String) → List String → List String → Option (List String)
walk fuel outgoing [] reachable = some reachable
walk zero outgoing (x ∷ queue) reachable = none
walk (suc fuel) outgoing (x ∷ queue) reachable =
    let seen = elem x reachable in
    walk fuel outgoing (if seen then queue else queue ++ successors outgoing x)
      (if seen then reachable else reachable ++ x ∷ [])
