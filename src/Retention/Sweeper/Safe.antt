-- ===== src/Retention/Sweeper/Safe.antt =====
-- What a schedule may delete.
use mathlib.Core.List.{Memᴰ}
use mathlib.Core.List.Memᴰ
use mathlib.Core.List.Memᴰ.{head, tail}
use rda_data_director.Prelude.{
  ℕ, ◌≡◌, refl, sym, ap, ◌∙◌, subst, String, Bool, true, false, ◌&&◌, List, [], ◌∷◌, Option, none,
  some, Result, ok, err, Error, ◌>>=◌, bind_inversion, get_last?, contains, eq_iff, arith,
  if◌then◌else◌,
}
use rda_data_director.Contracts.Primitives.{Digest}
use rda_data_director.Contracts.Payload.{truthy}
use rda_data_director.Contracts.Intents.{repository_publish}
use rda_data_director.Contracts.Events.{Event}
use rda_data_director.Contracts.Retention.{
  RetentionCategory, is_automatic, has_survived, RetentionCandidate, deletable_automatically,
}
use rda_data_director.State.Store.{Store, load, list_jobs}
use rda_data_director.State.Projection.{JobState, fold}
use rda_data_director.Workflow.Effects.{Prober}
use rda_data_director.Retention.Sweeper.{
  Directory, RetentionSweeper, category_of, pid_of, last_time, is_idle, job_candidate,
  unattributed_candidate, sort_dirs, survival_intent, is_released, not_checked, found_survival,
  answered, asked_repository, check_survival, candidate_of, candidates_in, candidates,
  with_survival, assess,
}

-- The repository answered that it holds what the candidate was published as.
pub record IsHeld (hash : String → String) (self : RetentionSweeper) (c : RetentionCandidate)
    : Type 0 where
  pub prober : Prober
  pub detail : String
  pub known : self.probers repository_publish ≡ some prober
  pub answer : prober (survival_intent hash c) ≡ ok ("took-effect", detail)

found_survival-held :
    (finding detail : String)
    → has_survived (some (found_survival finding detail)) ≡ true
    → finding ≡ "took-effect"
found_survival-held finding detail h = ground (arith, eq_iff finding "took-effect")

check_survival-IsHeld :
    (words : Error → String) (hash : String → String) (self : RetentionSweeper)
    (c : RetentionCandidate)
    → has_survived (some (check_survival words hash self c)) ≡ true
    → IsHeld hash self c
unfolding check_survival
check_survival-IsHeld words hash self c h = by_kind (is_released c.category) h
  where
    by_answer :
        (prober : Prober) (r : Result (String × String))
        → self.probers repository_publish ≡ some prober
        → prober (survival_intent hash c) ≡ r
        → has_survived (some (answered words r)) ≡ true
        → IsHeld hash self c
    by_answer prober (err e) known said h = cc
    by_answer prober (ok (finding, detail)) known said h = record {
      prober = prober;
      detail = detail;
      known = known;
      answer = said ∙ ap (λ f. ok (f, detail)) (found_survival-held finding detail h);
    }

    by_prober :
        (o : Option Prober)
        → self.probers repository_publish ≡ o
        → has_survived (some (asked_repository words hash c o)) ≡ true
        → IsHeld hash self c
    by_prober none known h = cc
    by_prober (some prober) known h =
        by_answer prober (prober (survival_intent hash c)) known refl h

    by_kind :
        (b : Bool)
        → has_survived (
            some (
              if b
              then asked_repository words hash c (self.probers repository_publish)
              else not_checked "survival is only checked for published material"))
          ≡ true
        → IsHeld hash self c
    by_kind false h = cc
    by_kind true h = by_prober (self.probers repository_publish) refl h

module _ (digest_of : Event → Digest) (explain : RetentionCategory → JobState → String) where
  -- The log of the candidate's job records a persistent identifier.
  pub record IsPublished (store : Store) (c : RetentionCandidate) : Type 0 where
    pub name : String
    pub state : JobState
    pub own : c.job_id ≡ some name
    pub listed : contains (list_jobs store) name ≡ true
    pub folded : (load digest_of name store >>= fold) ≡ ok state
    pub published : truthy state.deposit_pid ≡ true

  candidate_of-IsPublished :
      (self : RetentionSweeper) (store : Store) (now : ℕ) (d : Directory) (c : RetentionCandidate)
      → candidate_of digest_of explain self store now d ≡ ok c
      → is_automatic c.category ≡ true
      → IsPublished store c
  unfolding candidate_of
  candidate_of-IsPublished self store now d c h auto =
      by_listing (contains (list_jobs store) d.name) refl h
    where
      by_listing :
          (b : Bool)
          → contains (list_jobs store) d.name ≡ b
          → (if b
              then (do
                events ← load digest_of d.name store
                state ← fold events
                let last : Option ℕ = last_time (get_last? events)
                pid ← pid_of state.deposit_pid
                ok (
                    job_candidate explain d
                      (category_of state (is_idle now self.idle_after_days last))
                      state
                      last
                      pid))
              else ok (unattributed_candidate d))
            ≡ ok c
          → IsPublished store c
      by_listing false listed h = absurd (no_job h)
        where
          no_job : ok (unattributed_candidate d) ≡ ok c → ⊥
          no_job e = cc
      by_listing true listed h =
          let (events, loads, h1) = bind_inversion (load digest_of d.name store) _ h in
          let (state, folds, h2) = bind_inversion (fold events) _ h1 in
          let last : Option ℕ = last_time (get_last? events) in
          let (pid, _, h3) = bind_inversion (pid_of state.deposit_pid) _ h2 in
          let category = category_of state (is_idle now self.idle_after_days last) in
          let same : job_candidate explain d category state last pid ≡ c = cc in
          record {
            name = d.name;
            state = state;
            own = ap (λ (c : RetentionCandidate). c.job_id) (sym same);
            listed = listed;
            folded = ap (λ r. r >>= fold) loads ∙ folds;
            published =
                released-published state (is_idle now self.idle_after_days last)
                  (ap (λ (c : RetentionCandidate). is_automatic c.category) same ∙ auto);
          }
        where
          released-published :
              (state : JobState) (quiet : Bool)
              → is_automatic (category_of state quiet) ≡ true
              → truthy state.deposit_pid ≡ true
          released-published state quiet h = ground arith

  Memᴰ-candidates_in :
      (self : RetentionSweeper) (store : Store) (now : ℕ) (ds : List Directory)
      (cs : List RetentionCandidate) (c : RetentionCandidate)
      → candidates_in digest_of explain self store now ds ≡ ok cs
      → Memᴰ c cs
      → (d : Directory) × (candidate_of digest_of explain self store now d ≡ ok c)
  Memᴰ-candidates_in self store now [] cs c h m =
      absurd (Memᴰ.not-nil (subst (λ l. Memᴰ c l) (none_there h) m))
    where
      none_there : ok [] ≡ ok cs → cs ≡ []
      none_there e = cc
  Memᴰ-candidates_in self store now (d ∷ ds) cs c h m =
      let (first, here, h1) =
        bind_inversion (candidate_of digest_of explain self store now d) _ h in
      let (rest, more, h2) =
        bind_inversion (candidates_in digest_of explain self store now ds) (λ cs. ok (first ∷ cs))
          h1 in
      let same : cs ≡ first ∷ rest = cc in
      by_place first rest here (Memᴰ-candidates_in self store now ds rest c more)
        (subst (λ l. Memᴰ c l) same m)
    where
      by_place :
          (first : RetentionCandidate) (rest : List RetentionCandidate)
          → candidate_of digest_of explain self store now d ≡ ok first
          → (Memᴰ c rest
              → (d : Directory) × (candidate_of digest_of explain self store now d ≡ ok c))
          → Memᴰ c (first ∷ rest)
          → (d : Directory) × (candidate_of digest_of explain self store now d ≡ ok c)
      by_place first rest here below (head e) = (d, here ∙ ap (λ c. ok c) (sym e))
      by_place first rest here below (tail m) = below m

  -- What a schedule may delete is safe: of the candidates that `assess` answers, one that counts as
  -- deletable without a person belongs to a job whose log records a persistent identifier, and the
  -- repository, asked about it, answered that it is there.
  pub automatic_is_safe :
      (words : Error → String) (hash : String → String) (self : RetentionSweeper) (store : Store)
      (now : ℕ) (cs : List RetentionCandidate) (c : RetentionCandidate)
      → assess digest_of explain words hash self store now ≡ ok cs
      → Memᴰ c cs
      → deletable_automatically c ≡ true
      → IsPublished store c × IsHeld hash self c
  unfolding assess candidates deletable_automatically
  automatic_is_safe words hash self store now cs c h m safe =
      let (found, h1, h2) =
        bind_inversion (candidates_in digest_of explain self store now (sort_dirs self.root)) _ h in
      let same : cs ≡ with_survival digest_of explain words hash self found = cc in
      let (c', place, filled) = Memᴰ.of_map _ found (subst (λ l. Memᴰ c l) same m) in
      let (d, made) = Memᴰ-candidates_in self store now (sort_dirs self.root) found c' h1 place in
      let safe' : deletable_automatically
            (record c' { survival = some (check_survival words hash self c') })
          ≡ true =
        ap deletable_automatically filled ∙ safe in
      let (auto, survived) =
        both (is_automatic c'.category) (has_survived (some (check_survival words hash self c')))
          safe' in
      let p = candidate_of-IsPublished self store now d c' made auto in
      let r = check_survival-IsHeld words hash self c' survived in
      subst (λ c. IsPublished store c × IsHeld hash self c) filled
        (
          record {
            name = p.name;
            state = p.state;
            own = p.own;
            listed = p.listed;
            folded = p.folded;
            published = p.published;
          },
          record { prober = r.prober; detail = r.detail; known = r.known; answer = r.answer },
        )
    where
      both : (a b : Bool) → (a && b) ≡ true → (a ≡ true) × (b ≡ true)
      both a b h = (ground arith, ground arith)
