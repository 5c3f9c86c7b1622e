-- ===== src/Policy/Enforcement.antt =====
-- policy/pep.py: which backend a model call reaches. A backend is what the enforcement point reads
-- of it; the `recorder` gets an activity of provenance and changes nothing here.
pub mod Sorted
pub mod Least
use rda_data_director.Prelude.{
  ℕ, String, Bool, true, false, not, ◌&&◌, List, [], ◌∷◌, ◌++◌, map, Option, none, some, Result, ok,
  err, ◌>>=◌, policy_halt, preference_unsatisfiable, capability_unavailable, other_exception, Error,
  leb, str_eq, contains, keep_if, if◌then◌else◌,
}
use rda_data_director.Contracts.Primitives.{Residency, residency_rank}
use rda_data_director.Contracts.Sensitivity.{SensitivityClass}
use rda_data_director.Contracts.Policy.{
  ModelCapability, text_generation, offers, BackendPreference, is_empty, PolicyConfig, names_for,
}

-- `capabilities` is `none` for a backend without that method.
pub record Backend : Type 0 where
  pub residency : Residency
  pub declared : Option (List ModelCapability)

pub record EnforcementPoint : Type 0 where
  pub policy : PolicyConfig
  pub backends : List (String × Backend)
  pub default_preference : Option BackendPreference
  pub resolved : List String

unfoldable pub permitted_backends : EnforcementPoint → SensitivityClass → List String
permitted_backends self classification = names_for self.policy.backend_by_sensitivity classification

-- `_capabilities`: a backend that declares none is assumed to generate text only.
abbrev pub capabilities : Backend → List ModelCapability
capabilities b = elim b.declared [ none ↦ text_generation ∷ [] | some cs ↦ cs ]

abbrev pub Candidate : Type 0
Candidate = Backend × String

-- `self._backends[n]`
abbrev pub find_backend : String → List (String × Backend) → Option Backend
find_backend name [] = none
find_backend name ((n, b) ∷ rest) = if str_eq n name then some b else find_backend name rest

-- `[(self._backends[n], n) for n in names if n in self._backends]`
abbrev pub configured : List (String × Backend) → List String → List Candidate
configured backends [] = []
configured backends (name ∷ names) =
    let rest = configured backends names in
    elim (find_backend name backends) [ none ↦ rest | some b ↦ (b, name) ∷ rest ]

abbrev pub can_do : ModelCapability → Candidate → Bool
can_do capability (b, name) = offers (capabilities b) capability

abbrev pub rank : Candidate → ℕ
rank (b, name) = residency_rank b.residency

-- `sort(key=...)`: stable, by insertion from the end of the list.
abbrev pub insert_by : (Candidate → ℕ) → Candidate → List Candidate → List Candidate
insert_by key c [] = c ∷ []
insert_by key c (d ∷ ds) = if leb (key c) (key d) then c ∷ d ∷ ds else d ∷ insert_by key c ds

abbrev pub sort_by : (Candidate → ℕ) → List Candidate → List Candidate
sort_by key [] = []
sort_by key (c ∷ cs) = insert_by key c (sort_by key cs)

-- `order[name]` of `{name: index for index, name in enumerate(names)}`: the last one wins.
abbrev last_index : List String → String → Option ℕ
last_index [] name = none
last_index (n ∷ ns) name = elim (last_index ns name) [
  | some i ↦ some (ℕ.suc i)
  | none ↦ if str_eq n name then some 0 else none
]

abbrev pub position : List String → Candidate → ℕ
position names (b, name) = elim (last_index names name) [ none ↦ 0 | some i ↦ i ]

abbrev pub named_in : List String → Candidate → Bool
named_in names (b, name) = contains names name

abbrev pub within : Residency → Candidate → Bool
within ceiling c = leb (rank c) (residency_rank ceiling)

abbrev pub under_ceiling : Option Residency → List Candidate → Result (List Candidate)
under_ceiling none cs = ok cs
under_ceiling (some ceiling) cs = elim (keep_if (within ceiling) cs) [
  | [] ↦ err preference_unsatisfiable
  | d ∷ ds ↦ ok (d ∷ ds)
]

-- The named ones in the order of their names, or all of them if none is named.
abbrev pub prefer_named : List String → List Candidate → List Candidate
prefer_named names cs = elim (keep_if (named_in names) cs) [
  | [] ↦ cs
  | d ∷ ds ↦ sort_by (position names) (d ∷ ds)
]

unfoldable pub apply_preference :
    List Candidate → Option BackendPreference → Result (List Candidate)
apply_preference cs none = ok cs
apply_preference cs (some p) =
    if is_empty p
    then ok cs
    else (under_ceiling p.residency_at_most cs >>= λ ds. ok (prefer_named p.backend_names ds))

-- `prefer if prefer is not None else default_preference`
abbrev pub effective : EnforcementPoint → Option BackendPreference → Option BackendPreference
effective self none = self.default_preference
effective self (some p) = some p

-- `if not capable: raise CapabilityUnavailable`
abbrev pub require_some : Error → List Candidate → Result (List Candidate)
require_some e [] = err e
require_some e (c ∷ cs) = ok (c ∷ cs)

-- The candidates that are left after policy, capability and preference, in the order of the code.
unfoldable pub candidates :
    EnforcementPoint
    → SensitivityClass
    → ModelCapability
    → Option BackendPreference
    → Result (List Candidate)
candidates self classification capability prefer = do
  permitted ←
      require_some policy_halt (configured self.backends (permitted_backends self classification))
  capable ← require_some capability_unavailable (keep_if (can_do capability) permitted)
  apply_preference capable (effective self prefer)

-- The first candidate, and `self._resolved.add(name)`.
abbrev pub take_first : EnforcementPoint → List Candidate → Result Candidate × EnforcementPoint
take_first self [] = (err other_exception, self)
take_first self ((b, name) ∷ rest) =
    (ok (b, name), record self { resolved = self.resolved ++ name ∷ [] })

-- The most restrictive of the candidates.
abbrev pub chosen : Result (List Candidate) → EnforcementPoint → Result Candidate × EnforcementPoint
chosen (err e) self = (err e, self)
chosen (ok cs) self = take_first self (sort_by rank cs)

-- `resolve_backend`, which answers the backend; its name is kept beside it.
unfoldable pub resolve_backend :
    EnforcementPoint
    → SensitivityClass
    → ModelCapability
    → Option BackendPreference
    → Result Candidate × EnforcementPoint
unfolding candidates
resolve_backend self classification capability prefer =
    chosen (candidates self classification capability prefer) self

-- `except PolicyHalt: return False`, which the two other refusals are instances of.
abbrev was_resolved : Result Candidate × EnforcementPoint → Result Bool × EnforcementPoint
was_resolved (ok c, self) = (ok true, self)
was_resolved (err policy_halt, self) = (ok false, self)
was_resolved (err preference_unsatisfiable, self) = (ok false, self)
was_resolved (err capability_unavailable, self) = (ok false, self)
was_resolved (err e, self) = (err e, self)

-- `can`
unfoldable pub can :
    EnforcementPoint → SensitivityClass → ModelCapability → Result Bool × EnforcementPoint
can self classification capability =
    was_resolved (resolve_backend self classification capability none)
