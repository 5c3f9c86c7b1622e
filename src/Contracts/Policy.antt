-- ===== src/Contracts/Policy.antt =====
-- policy.py: which model backends may see material of which sensitivity, and what a depositor would
-- prefer among them; and `ModelCapability` of plugins.py.
use rda_data_director.Prelude.{
  ℕ, String, Bool, true, false, ◌&&◌, List, [], ◌∷◌, Option, none, some, Result, ok, err,
  value_error, ◌==◌, any, all, if◌then◌else◌,
}
use rda_data_director.Contracts.Primitives.{Residency}
use rda_data_director.Contracts.Sensitivity.{
  SensitivityClass, public, internal, sensitive, level_value,
}

pub data ModelCapability : Type 0 where
  text_generation vision audio long_context structured_output : ModelCapability

abbrev pub capability_index : ModelCapability → ℕ
capability_index text_generation = 0
capability_index vision = 1
capability_index audio = 2
capability_index long_context = 3
capability_index structured_output = 4

-- `capability in capabilities`
abbrev pub offers : List ModelCapability → ModelCapability → Bool
offers capabilities c = any (λ d. capability_index d == capability_index c) capabilities

pub record BackendPreference : Type 0 where
  pub residency_at_most : Option Residency
  pub backend_names : List String

abbrev nothing_named : List String → Bool
nothing_named [] = true
nothing_named (n ∷ ns) = false

abbrev no_ceiling : Option Residency → Bool
no_ceiling none = true
no_ceiling (some r) = false

-- `BackendPreference.is_empty`
abbrev pub is_empty : BackendPreference → Bool
is_empty p = no_ceiling p.residency_at_most && nothing_named p.backend_names

-- What the enforcement point reads of a `PolicyConfig`.
pub record PolicyConfig : Type 0 where
  pub backend_by_sensitivity : List (SensitivityClass × List String)

abbrev same_class : SensitivityClass → SensitivityClass → Bool
same_class a b = level_value a == level_value b

abbrev states_class : List (SensitivityClass × List String) → SensitivityClass → Bool
states_class [] c = false
states_class ((d, names) ∷ rest) c = if same_class d c then true else states_class rest c

-- The check of `PolicyConfig(...)`.
unfoldable pub construct_policy : PolicyConfig → Result PolicyConfig
construct_policy config =
    if all (states_class config.backend_by_sensitivity) (public ∷ internal ∷ sensitive ∷ [])
    then ok config
    else err value_error

-- `backend_by_sensitivity.get(classification, [])`
abbrev pub names_for : List (SensitivityClass × List String) → SensitivityClass → List String
names_for [] c = []
names_for ((d, names) ∷ rest) c = if same_class d c then names else names_for rest c
