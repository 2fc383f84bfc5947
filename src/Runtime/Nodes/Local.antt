-- ===== src/Runtime/Nodes/Local.antt =====
-- The models that the agents of a run are given.
use agenstfer_agi.Base.{
  ℕ, String, ◌≡◌, ◌⊎◌, refl, sym, ap, ◌∙◌, true, false, not, List, Result, ok, err, ◌>>=◌,
  Bool-cases, inl, inr, false≢true,
}
use agenstfer_agi.Base.Dict.{Dict, get}
use agenstfer_agi.Json.{Json}
use agenstfer_agi.Workflow.Models.{WorkflowNode}
use agenstfer_agi.Registry.Rows.{AgentDefinitionRow}
use agenstfer_agi.Policy.Profiles.{Settings}
use agenstfer_agi.Policy.{PolicyError, enforce_cloud_data_policy, is_protected, is_known}
use agenstfer_agi.Policy.Profiles.{ModelProfile, resolve_model_profile, cloud_off_stays_local}
use agenstfer_agi.Runtime.Conditions.{Failure, required, text_or}
use agenstfer_agi.Runtime.Start.{requested_profile}
use agenstfer_agi.Runtime.Nodes.{
  NodeServices, of_policy, pinned_agent, default_profile, setdefault_at, run_agent_node,
}

bind_same {ℓ} :
    {E : Type 0} {A : Type 0} {B : Type ℓ} (m : Result E A) (f g : A → Result E B)
    → ((a : A) → m ≡ ok a → f a ≡ g a)
    → (m >>= f) ≡ (m >>= g)
bind_same (ok a) f g h = h a refl
bind_same (err e) f g h = refl

of_policy-ok : {A : Type 0} (x : Result PolicyError A) (a : A) → of_policy x ≡ ok a → x ≡ ok a
unfolding of_policy
of_policy-ok (ok b) a h = let same : b ≡ a = cc in ap ok same
of_policy-ok (err e) a h = cc

unprotected :
    (c : String) (u : Unit {0}) → enforce_cloud_data_policy c true ≡ ok u → is_protected c ≡ false
unfolding enforce_cloud_data_policy
unprotected c u h = elim (Bool-cases (is_known c)) [
  | inl k ↦ elim (Bool-cases (is_protected c)) [
    | inl p ↦ absurd (let h' = rw (k, p) at h in cc)
    | inr p ↦ p
  ]
  | inr k ↦ absurd (let h' = rw k at h in cc)
]

-- A local model, or a cloud model that the settings allow for data that is not protected.
abbrev pub IsAllowed : Settings → Result PolicyError String → ModelProfile → Type 0
IsAllowed settings scope profile =
    (profile.local ≡ true)
    ⊎ ((settings.cloud_models_enabled ≡ true)
        × ((c : String) × (scope ≡ ok c) × (is_protected c ≡ false)))

resolve_model_profile-IsAllowed :
    (settings : Settings) (scope : Result PolicyError String) (requested : String)
    → (profile : ModelProfile) (c : String) (u : Unit {0})
    → resolve_model_profile requested settings ≡ ok profile
    → scope ≡ ok c
    → enforce_cloud_data_policy c (not profile.local) ≡ ok u
    → IsAllowed settings scope profile
resolve_model_profile-IsAllowed settings scope requested profile c u resolved known enforced =
    elim (Bool-cases profile.local) [
      | inl l ↦ inl l
      | inr l ↦ elim (Bool-cases settings.cloud_models_enabled) [
        | inl e ↦ inr (e, (c, known, unprotected c u (simp l at enforced)))
        | inr e ↦
            let (listed, is_local, id_is) =
              cloud_off_stays_local settings requested profile e resolved in
            absurd (false≢true (sym l ∙ is_local))
      ]
    ]

-- What an agent's node does depends on the models only as far as they are local, or are cloud models
-- that the settings allow for data that is not protected: two services that agree on those give the
-- same state or the same exception.
pub agent_within_policy :
    (py_str : Json → String) (services services' : NodeServices) (settings : Settings)
    → (model_profile : String) (agents : List AgentDefinitionRow)
      (scope : Result PolicyError String)
    → (agent_versions : Dict ℕ) (run_profile : String) (node : WorkflowNode) (state : Dict Json)
    → ((agent : AgentDefinitionRow) (profile : ModelProfile)
        → IsAllowed settings scope profile
        → services.run_agent agent profile node state
          ≡ services'.run_agent agent profile node state)
    → run_agent_node py_str services settings model_profile agents scope agent_versions run_profile
        node state
      ≡ run_agent_node py_str services' settings model_profile agents scope agent_versions
          run_profile node state
unfolding run_agent_node
agent_within_policy py_str services services' settings model_profile agents scope agent_versions
      run_profile node state agree =
    bind_same (required "agent_id" node.config) _ _ (λ configured _.
      bind_same
        (pinned_agent (text_or py_str configured) (get (text_or py_str configured) agent_versions)
          agents)
        _ _
        (λ agent _.
          let requested =
            requested_profile py_str (get "model_profile" node.config)
              (default_profile run_profile model_profile agent.definition.model_profile) in
          bind_same (of_policy (resolve_model_profile requested settings)) _ _ (λ profile p.
            bind_same (of_policy scope) _ _ (λ c s.
              bind_same (of_policy (enforce_cloud_data_policy c (not profile.local))) _ _ (λ u e.
                ap
                  (λ (x : Result Failure Json). x >>= λ output.
                    setdefault_at "agent_results" (text_or py_str configured) output state)
                  (agree agent profile (
                    resolve_model_profile-IsAllowed settings scope requested profile c u
                      (of_policy-ok _ profile p) (of_policy-ok _ c s) (of_policy-ok _ u e))))))))
