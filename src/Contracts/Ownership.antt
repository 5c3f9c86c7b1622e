-- ===== src/Contracts/Ownership.antt =====
-- ownership.py: who owns a job.
use rda_data_director.Prelude.{
  ℕ, String, Bool, List, [], ◌∷◌, ◌++◌, Option, none, some, Result, ok, err, permission_error,
  str_eq, ◌==◌, any, contains, length, if◌then◌else◌,
}
use rda_data_director.Contracts.Primitives.{Orcid}

pub data AccessRole : Type 0 where
  auditor administrator : AccessRole

pub record OwnershipGrant : Type 0 where
  pub owner : Orcid
  pub granted_by : Option Orcid
  pub reason : Option String
  pub granted_at : ℕ

pub record Ownership : Type 0 where
  pub job_id : String
  pub grants : List OwnershipGrant

-- `owners`: the grants' owners, each identifier once.
abbrev pub owners_beyond : List String → List OwnershipGrant → List Orcid
owners_beyond seen [] = []
owners_beyond seen (g ∷ gs) =
    let again = owners_beyond seen gs in
    let fresh = owners_beyond (g.owner.value ∷ seen) gs in
    if contains seen g.owner.value then again else g.owner ∷ fresh

unfoldable pub owners : Ownership → List Orcid
owners self = owners_beyond [] self.grants

-- `owned_by`
unfoldable pub owned_by : Ownership → Orcid → Bool
unfolding owners
owned_by self orcid = any (λ o. str_eq o.value orcid.value) (owners self)

abbrev creator_among : List OwnershipGrant → Option Orcid
creator_among [] = none
creator_among (g ∷ gs) = elim g.granted_by [ none ↦ some g.owner | some by ↦ creator_among gs ]

abbrev pub creator : Ownership → Option Orcid
creator self = creator_among self.grants

unfoldable pub is_sole_owned : Ownership → Bool
unfolding owners
is_sole_owned self = length (owners self) == 1

-- `granting`; `now` is the time that `OwnershipGrant` takes for its own.
unfoldable pub granting : Ownership → Orcid → Orcid → Option String → ℕ → Result Ownership
unfolding owned_by
granting self owner by reason now =
    if owned_by self by
    then (if owned_by self owner
        then ok self
        else ok (record self {
          grants =
              self.grants
              ++ record { owner = owner; granted_by = some by; reason = reason; granted_at = now }
                ∷ [];
        }))
    else err permission_error
