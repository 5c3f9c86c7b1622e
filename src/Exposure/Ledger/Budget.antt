-- ===== src/Exposure/Ledger/Budget.antt =====
-- The budget holds in every ledger that the program can reach.
use rda_data_director.Prelude.{
  ℕ, ◌+◌, ◌≤◌, ◌≡◌, refl, sym, ap, ◌∙◌, subst, String, Bool, true, false, List, [], ◌∷◌, ◌++◌,
  Option, none, some, Result, ok, err, bind_inversion, arith, eq_iff, str_eq, length, All,
  if◌then◌else◌,
}
use rda_data_director.Contracts.Primitives.{Digest}
use rda_data_director.Contracts.Events.{is_none}
use rda_data_director.Contracts.Exposure.{Exposure, ExposureBudget, construct_exposure}
use rda_data_director.Exposure.Ledger.{
  requires_human_authority, ExposureLedger, read_lines, charge, charged, charged_to, load, spent,
  spent_on_artefact, Breach, breach, raise_breach, raise_unauthorised, would_exceed, Release,
  byte_count, exposure_of, admit, write, record_release, record_all,
}

-- A person has authorised a whole artefact that leaves the premises.
abbrev pub IsAuthorised : Exposure → Type 0
IsAuthorised e =
    requires_human_authority e.kind e.residency ≡ true → is_none e.authorised_by ≡ false

-- Within the limits on releases, on bytes of the job and on bytes of each artefact, and authorised.
pub record IsWithin (budget : ExposureBudget) (es : List Exposure) : Type 0 where
  pub releases : length es ≤ budget.max_releases_per_job
  pub bytes : charged es ≤ budget.max_bytes_per_job
  pub per_artefact : (uri : String) → charged_to uri es ≤ budget.max_bytes_per_artefact
  pub authorised : All IsAuthorised es

charged-append :
    (es : List Exposure) (e : Exposure) → charged (es ++ e ∷ []) ≡ charged es + charge e
charged-append [] e = omega arith
charged-append (x ∷ es) e = omega (arith, charged-append es e)

charged_to-append :
    (uri : String) (es : List Exposure) (e : Exposure)
    → charged_to uri (es ++ e ∷ [])
      ≡ charged_to uri es + (if str_eq e.artefact_uri uri then charge e else 0)
charged_to-append uri [] e = ground arith
charged_to-append uri (x ∷ es) e = ground (arith, charged_to-append uri es e)

length-append_one : (es : List Exposure) (e : Exposure) → length (es ++ e ∷ []) ≡ length es + 1
length-append_one [] e = refl
length-append_one (x ∷ es) e = omega (arith, length-append_one es e)

All-append_one :
    (es : List Exposure) (e : Exposure)
    → All IsAuthorised es
    → IsAuthorised e
    → All IsAuthorised (es ++ e ∷ [])
All-append_one [] e a h = (h, tt)
All-append_one (x ∷ es) e (here, more) h = (here, All-append_one es e more h)

construct_exposure-same : (e d : Exposure) → construct_exposure e ≡ ok d → d ≡ e
unfolding construct_exposure
construct_exposure-same e d h = ground arith

-- Reading a file back gives its lines.
read_lines-same : (ls es : List Exposure) → read_lines ls ≡ ok es → es ≡ ls
read_lines-same [] es h = cc
read_lines-same (l ∷ ls) es h =
    let (e, first, h1) = bind_inversion (construct_exposure l) _ h in
    let (more, rest, h2) = bind_inversion (read_lines ls) (λ es. ok (e ∷ es)) h1 in
    let same = construct_exposure-same l e first in let below = read_lines-same ls more rest in cc

module _ (digest_of_bytes : List ℕ → Digest) where
  record IsAdmitted (r : Release) (self : ExposureLedger) (e : Exposure) : Type 0 where
    exposure : e ≡ exposure_of digest_of_bytes r
    authority : raise_unauthorised r ≡ ok tt
    limits :
        breach self.budget
          (charged (self.files r.job_id), length (self.files r.job_id))
          (charged_to r.artefact_uri (self.files r.job_id))
          (charge e)
        ≡ none

  would_exceed-none :
      (self : ExposureLedger) (r : Release) (o : Option Breach)
      → would_exceed self r.job_id r.artefact_uri r.kind (byte_count r) ≡ ok o
      → breach self.budget
          (charged (self.files r.job_id), length (self.files r.job_id))
          (charged_to r.artefact_uri (self.files r.job_id))
          (charge (exposure_of digest_of_bytes r))
        ≡ o
  unfolding would_exceed
  would_exceed-none self r o h =
      let job = r.job_id in
      let uri = r.artefact_uri in
      let (so_far, h1, h2) = bind_inversion (spent self job) _ h in
      let (per_artefact, h3, h4) = bind_inversion (spent_on_artefact self job uri) _ h2 in
      let (es, l, h5) = bind_inversion (load self job) (λ es. ok (charged es, length es)) h1 in
      let (es', l', h6) = bind_inversion (load self job) (λ es. ok (charged_to uri es)) h3 in
      let same = read_lines-same (self.files job) es l in
      let same' = read_lines-same (self.files job) es' l' in
      let totals : so_far ≡ (charged (self.files job), length (self.files job)) = cc in
      let part : per_artefact ≡ charged_to uri (self.files job) = cc in
      ap (λ (p : (ℕ × ℕ) × ℕ). breach self.budget p.0 p.1 (charge (exposure_of digest_of_bytes r)))
        (sym (λ i. (totals i, part i)))
      ∙ ok_injective h4
    where
      ok_injective : {a b : Option Breach} → ok a ≡ ok b → a ≡ b
      ok_injective e = cc

  admit-IsAdmitted :
      (r : Release) (self : ExposureLedger) (e : Exposure)
      → admit digest_of_bytes r self ≡ ok e
      → IsAdmitted r self e
  unfolding admit
  admit-IsAdmitted r self e h =
      let (_, allowed, h1) = bind_inversion (raise_unauthorised r) _ h in
      let (reason, limits, h2) =
        bind_inversion (would_exceed self r.job_id r.artefact_uri r.kind (byte_count r)) _ h1 in
      let (_, kept, h3) = bind_inversion (raise_breach reason) _ h2 in
      let same = construct_exposure-same (exposure_of digest_of_bytes r) e h3 in
      record {
        exposure = same;
        authority = allowed;
        limits =
            ap
              (λ e.
                breach self.budget (charged (self.files r.job_id), length (self.files r.job_id))
                  (charged_to r.artefact_uri (self.files r.job_id)) (charge e))
              same
            ∙ would_exceed-none self r reason limits
            ∙ no_reason reason kept;
      }
    where
      no_reason : (o : Option Breach) → raise_breach o ≡ ok tt → o ≡ none
      no_reason none h = refl
      no_reason (some b) h = cc

  -- What the three limits say of one more exposure.
  breach-none :
      (budget : ExposureBudget) (es : List Exposure) (uri : String) (n : ℕ)
      → breach budget (charged es, length es) (charged_to uri es) n ≡ none
      → (length es + 1 ≤ budget.max_releases_per_job)
        × (charged es + n ≤ budget.max_bytes_per_job)
        × (charged_to uri es + n ≤ budget.max_bytes_per_artefact)
  breach-none budget es uri n h = (ground arith, ground arith, ground arith)

  authority-IsAuthorised :
      (r : Release) (e : Exposure)
      → e ≡ exposure_of digest_of_bytes r
      → raise_unauthorised r ≡ ok tt
      → IsAuthorised e
  authority-IsAuthorised r e same h = subst (λ e. IsAuthorised e) (sym same) (λ whole. ground arith)

  IsWithin-append :
      (r : Release) (self : ExposureLedger) (e : Exposure)
      → IsAdmitted r self e
      → IsWithin self.budget (self.files r.job_id)
      → IsWithin self.budget (self.files r.job_id ++ e ∷ [])
  IsWithin-append r self e admitted within =
      let es = self.files r.job_id in
      let (h1, h2, h3) = breach-none self.budget es r.artefact_uri (charge e) admitted.limits in
      record {
        releases = omega (arith, length-append_one es e);
        bytes = omega (arith, charged-append es e);
        per_artefact = λ uri. ground (
          arith,
          charged_to-append uri es e,
          within.per_artefact uri,
          eq_iff e.artefact_uri uri,
          ap (λ d. d.artefact_uri) admitted.exposure,
        );
        authorised =
            All-append_one es e within.authorised
              (authority-IsAuthorised r e admitted.exposure admitted.authority);
      }

  -- Whatever one release answers, every job stays within the limits.
  record_release-IsWithin :
      (r : Release) (self : ExposureLedger)
      → ((job : String) → IsWithin self.budget (self.files job))
      → (job : String) → IsWithin self.budget ((record_release digest_of_bytes r self).1.files job)
  unfolding record_release
  record_release-IsWithin r self within job = by_answer (admit digest_of_bytes r self) refl
    where
      by_answer :
          (a : Result Exposure)
          → admit digest_of_bytes r self ≡ a
          → IsWithin self.budget ((write digest_of_bytes self r.job_id a).1.files job)
      by_answer (err e) h = within job
      by_answer (ok e) h = by_job (str_eq job r.job_id) refl
        where
          by_job :
              (b : Bool)
              → str_eq job r.job_id ≡ b
              → IsWithin self.budget (if b then self.files job ++ e ∷ [] else self.files job)
          by_job true same =
              subst (λ j. IsWithin self.budget (self.files j ++ e ∷ []))
                (sym ((eq_iff job r.job_id).0 same))
                (IsWithin-append r self e (admit-IsAdmitted r self e h) (within r.job_id))
          by_job false other = within job

  record_release-budget :
      (r : Release) (self : ExposureLedger)
      → (record_release digest_of_bytes r self).1.budget ≡ self.budget
  unfolding record_release
  record_release-budget r self = by_answer (admit digest_of_bytes r self)
    where
      by_answer :
          (a : Result Exposure) → (write digest_of_bytes self r.job_id a).1.budget ≡ self.budget
      by_answer (err e) = refl
      by_answer (ok e) = refl

  record_all-IsWithin :
      (rs : List Release) (self : ExposureLedger)
      → ((job : String) → IsWithin self.budget (self.files job))
      → (job : String) → IsWithin self.budget ((record_all digest_of_bytes rs self).files job)
  unfolding record_all
  record_all-IsWithin [] self within job = within job
  record_all-IsWithin (r ∷ rs) self within job =
      let next = (record_release digest_of_bytes r self).1 in
      let same = record_release-budget r self in
      subst (λ b. IsWithin b ((record_all digest_of_bytes rs next).files job)) same
        (record_all-IsWithin rs next
          (λ j.
            subst (λ b. IsWithin b (next.files j)) (sym same)
              (record_release-IsWithin r self within j))
          job)

  -- A new ledger that records any releases, in any order and for any jobs, keeps every job within
  -- its limits on the number of releases, on the bytes in all and on the bytes of each artefact;
  -- and a whole artefact in it that left the premises names the person who authorised that.
  pub budget_kept :
      (budget : ExposureBudget) (rs : List Release) (job : String)
      → IsWithin budget
          ((record_all digest_of_bytes rs (record { files = λ j. []; budget = budget })).files job)
  budget_kept budget rs job =
      record_all-IsWithin rs (record { files = λ j. []; budget = budget })
        (λ j. record {
          releases = omega arith;
          bytes = omega arith;
          per_artefact = λ uri. omega arith;
          authorised = tt;
        })
        job
