-- ===== src/Policy/Profiles.antt =====
-- resolve_model_profile of agents/model_gateway.py. Of a profile, the name of the model and the URL
-- are left out; of the settings, what the function reads.
use agenstfer_agi.Base.{
  String, ◌≡◌, ◌≢◌, refl, Bool, true, false, ◌||◌, not, Option, none, some, List, [], ◌∷◌, ◌==◌,
  if◌then◌else◌, Result, ok, err, Bool-cases, inl, inr, starts_with, drop_text, joined,
}
use agenstfer_agi.Base.Sets.{elem}
use agenstfer_agi.Policy.{PolicyError, value_error, permission_error}

-- What resolve_model_profile reads of the settings.
pub record Settings : Type 0 where
  pub cloud_models_enabled : Bool
  pub cloud_provider : Option String
  pub has_cloud_api_key : Bool

-- The keys of `CLOUD_PROVIDERS`.
abbrev pub cloud_providers : List String
cloud_providers = "gemini" ∷ "groq" ∷ "mistral" ∷ "openrouter" ∷ []

pub record ModelProfile : Type 0 where
  pub id : String
  pub provider : String
  pub local : Bool

-- The keys of `PROFILES`.
abbrev pub local_profiles : List String
local_profiles = "local-balanced" ∷ "local-strong" ∷ []

-- `settings.cloud_provider or profile.removeprefix("cloud-")`, for a profile that starts so.
unfoldable pub cloud_provider_of : Settings → String → String
cloud_provider_of settings profile_id = elim settings.cloud_provider [
  | none ↦ drop_text 6 profile_id
  | some p ↦ if p == "" then drop_text 6 profile_id else p
]

unfoldable pub resolve_cloud : Settings → String → Result PolicyError ModelProfile
unfolding elem
resolve_cloud settings provider =
    if not settings.cloud_models_enabled
    then err permission_error
    else if not (elem provider cloud_providers) || not settings.has_cloud_api_key
    then err value_error
    else ok (record { id = joined "cloud-" provider; provider = provider; local = false })

unfoldable pub resolve_model_profile : String → Settings → Result PolicyError ModelProfile
unfolding resolve_cloud cloud_provider_of elem
resolve_model_profile profile_id settings =
    if starts_with profile_id "cloud-"
    then resolve_cloud settings (cloud_provider_of settings profile_id)
    else if elem profile_id local_profiles
    then ok (record { id = profile_id; provider = "ollama"; local = true })
    else err value_error

refused_cloud :
    (settings : Settings) (provider : String) (m : ModelProfile)
    → settings.cloud_models_enabled ≡ false
    → resolve_cloud settings provider ≢ ok m
unfolding resolve_cloud
refused_cloud settings provider m off h = let h' = rw off at h in cc

known_local :
    (b : Bool) (p : String) (m : ModelProfile)
    → (if b then ok (record { id = p; provider = "ollama"; local = true }) else err value_error)
      ≡ ok m
    → (b ≡ true) × (m.local ≡ true) × (m.id ≡ p)
known_local true p m h = (refl, cc, cc)
known_local false p m h = cc

-- While cloud models are not enabled, each profile that is resolved is a local one, under the name
-- that was asked for.
pub cloud_off_stays_local :
    (settings : Settings) (p : String) (m : ModelProfile)
    → settings.cloud_models_enabled ≡ false
    → resolve_model_profile p settings ≡ ok m
    → (elem p local_profiles ≡ true) × (m.local ≡ true) × (m.id ≡ p)
unfolding resolve_model_profile
cloud_off_stays_local settings p m off h = elim (Bool-cases (starts_with p "cloud-")) [
  | inl e ↦ absurd (refused_cloud settings (cloud_provider_of settings p) m off (rw e at h))
  | inr e ↦ known_local (elem p local_profiles) p m (rw e at h)
]
