-- ===== src/State/Projection/Extend.antt =====
-- The state of a log with one entry more that is no compensation.
use rda_data_director.Prelude.{
  ℕ, ◌≡◌, ◌≢◌, refl, ◌∙◌, String, false, List, [], ◌∷◌, ◌++◌, Result, ok, bind_ok, take,
}
use rda_data_director.Contracts.Events.{Event}
use rda_data_director.State.Projection.{
  JobState, is_compensation, apply, fold_step, with_seen, fold,
}
use rda_data_director.State.Projection.Fuel.{IsCompensable, LooksBackFrom-append}
use rda_data_director.State.Projection.Rollback.{fold-snoc}

-- A log that folds to a state of the job.
pub record Folded (job : String) (log : List Event) (now : JobState) : Type 0 where
  pub begun : log ≢ []
  pub compensable : IsCompensable log
  pub folds : fold log ≡ ok now
  pub named : now.job_id ≡ job

abbrev pub seen_after : List Event → Event → JobState → JobState
seen_after log ev next = with_seen (log ++ ev ∷ []) next

IsCompensable-snoc :
    (log : List Event) (ev : Event)
    → IsCompensable log
    → is_compensation ev.kind ≡ false
    → IsCompensable (log ++ ev ∷ [])
IsCompensable-snoc log ev back plain =
    LooksBackFrom-append 0 log (ev ∷ []) back (λ n comp restores. cc, tt)

not-nil : {first : Event} {rest : List Event} → first ∷ rest ≢ []
not-nil e = cc

plain-step :
    (restore : ℕ → Result JobState) (now : JobState) (ev : Event)
    → is_compensation ev.kind ≡ false
    → fold_step restore now ev ≡ apply now ev
unfolding fold_step
plain-step restore now ev plain = rw plain refl

pub Folded-snoc :
    (job : String) (log : List Event) (ev : Event) (now next : JobState)
    → Folded job log now
    → is_compensation ev.kind ≡ false
    → apply now ev ≡ ok next
    → next.job_id ≡ job
    → Folded job (log ++ ev ∷ []) (seen_after log ev next)
Folded-snoc job [] ev now next f plain applied named = absurd (f.begun refl)
Folded-snoc job (first ∷ rest) ev now next f plain applied named =
    let back = IsCompensable-snoc (first ∷ rest) ev f.compensable plain in
    record {
      begun = λ e. not-nil e;
      compensable = back;
      folds =
          fold-snoc first rest ev back
          ∙ bind_ok (fold (first ∷ rest)) _ f.folds
          ∙ bind_ok (fold_step (λ n. fold (take n (first ∷ rest))) now ev)
              (λ s. ok (seen_after (first ∷ rest) ev s))
              (plain-step (λ n. fold (take n (first ∷ rest))) now ev plain ∙ applied);
      named = named;
    }
