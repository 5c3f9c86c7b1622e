-- ===== src/State/Projection/Rollback.antt =====
-- The fold one event at a time: what one more event does to the state, and what a compensating
-- event restores.
use rda_data_director.Prelude.{
  ℕ, suc, ◌≡◌, refl, sym, ap, ◌∙◌, List, [], ◌∷◌, ◌++◌, map, Result, ok, err, ◌>>=◌, true, arith,
  length, take, take-append_le, length-append, >>=-cong, >>=_assoc, Bool-cases, inl, inr,
}
use rda_data_director.Contracts.Events.{Event, EventKind}
use rda_data_director.State.Projection.{
  JobState, new_state, is_compensation, restores_state_at, updated, apply, fold_step, fold_loop,
  fold, with_seen,
}
use rda_data_director.State.Projection.Fuel.{
  IsCompensable, LooksBackFrom-front, fold-eq-fold_loop, fold_loop_agree,
}

-- The kinds seen so far are copied, never read, by the fold.
abbrev see : List EventKind → JobState → JobState
see kinds state = record state { seen_kinds = kinds }

updated-see :
    (kinds : List EventKind) (state : JobState) (ev : Event) (k : EventKind)
    → updated (see kinds state) ev k ≡ (updated state ev k >>= λ after. ok (see kinds after))
unfolding updated
updated-see kinds state ev EventKind.declaration_confirmed = ground arith
updated-see kinds state ev EventKind.classification_completed = ground arith
updated-see kinds state ev EventKind.material_registered = ground arith
updated-see kinds state ev EventKind.instructions_received = ground arith
updated-see kinds state ev EventKind.workflow_created = refl
updated-see kinds state ev _ = refl

apply-see :
    (kinds : List EventKind) (state : JobState) (ev : Event)
    → apply (see kinds state) ev ≡ (apply state ev >>= λ after. ok (see kinds after))
unfolding apply
apply-see kinds state ev = rw (updated-see kinds state ev ev.kind) (ground arith)

-- Two rounds from states that differ in the seen kinds end alike, once the kinds are set anew.
same_but_seen :
    (r : ℕ → Result JobState) (kinds : List EventKind) (events : List Event) (state : JobState)
    (ev : Event)
    → (fold_step r state ev >>= λ s. ok (with_seen events s))
      ≡ (fold_step r (see kinds state) ev >>= λ s. ok (with_seen events s))
unfolding fold_step
same_but_seen r kinds events state ev = elim (Bool-cases (is_compensation ev.kind)) [
  | inl comp ↦ rw comp
  | inr plain ↦ rw (plain, apply-see kinds state ev) (forget (apply state ev))
]
  where
    forget :
        (m : Result JobState)
        → (m >>= λ s. ok (with_seen events s))
          ≡ ((m >>= λ s. ok (see kinds s)) >>= λ s. ok (with_seen events s))
    forget (ok s) = refl
    forget (err e) = refl

fold_loop-append :
    (r : ℕ → Result JobState) (state : JobState) (xs ys : List Event)
    → fold_loop r state (xs ++ ys) ≡ (fold_loop r state xs >>= λ s. fold_loop r s ys)
unfolding fold_loop
fold_loop-append r state [] ys = refl
fold_loop-append r state (x ∷ xs) ys =
    >>=-cong (fold_step r state x) _ _ (λ s _. fold_loop-append r s xs ys)
    ∙ sym (>>=_assoc (fold_step r state x) (λ s. fold_loop r s xs) (λ s. fold_loop r s ys))

fold_loop-single :
    (r : ℕ → Result JobState) (state : JobState) (ev : Event)
    → fold_loop r state (ev ∷ []) ≡ fold_step r state ev
unfolding fold_loop
fold_loop-single r state ev = ok_back (fold_step r state ev)
  where
    ok_back : (m : Result JobState) → (m >>= λ s. ok s) ≡ m
    ok_back (ok s) = refl
    ok_back (err e) = refl

-- The fold of a log with one more event is one round from the fold of the log, whose recursive
-- call is the fold of the earlier events: nothing but the state is carried from one event to the
-- next.
pub fold-snoc :
    (first : Event) (rest : List Event) (ev : Event)
    → IsCompensable ((first ∷ rest) ++ ev ∷ [])
    → fold ((first ∷ rest) ++ ev ∷ []) ≡ (
        fold (first ∷ rest) >>= λ state.
        fold_step (λ n. fold (take n (first ∷ rest))) state ev >>= λ next.
        ok (with_seen ((first ∷ rest) ++ ev ∷ []) next))
fold-snoc first rest ev h =
    let log = first ∷ rest in
    let start = new_state first.job_id in
    let earlier = λ (n : ℕ). fold (take n log) in
    let final = λ (s : JobState). ok (with_seen (log ++ ev ∷ []) s) in
    let kinds = map (λ (e : Event). e.kind) log in
    fold-eq-fold_loop first (rest ++ ev ∷ []) h
    ∙ ap (λ m. m >>= final)
        (fold_loop_agree (λ n. fold (take n (log ++ ev ∷ []))) earlier (suc (length log)) 0
          (log ++ ev ∷ []) start h (omega (arith, length-append log (ev ∷ [])))
          (λ n lt. ap fold (take-append_le n log (ev ∷ []) (omega arith))))
    ∙ ap (λ m. m >>= final) (fold_loop-append earlier start log (ev ∷ []))
    ∙ >>=_assoc (fold_loop earlier start log) (λ s. fold_loop earlier s (ev ∷ [])) final
    ∙ >>=-cong (fold_loop earlier start log) _ _ (λ s _.
      ap (λ m. m >>= final) (fold_loop-single earlier s ev)
      ∙ same_but_seen earlier kinds (log ++ ev ∷ []) s ev)
    ∙ sym (
        >>=_assoc (fold_loop earlier start log) (λ s. ok (with_seen log s))
          (λ s. fold_step earlier s ev >>= final))
    ∙ ap (λ m. m >>= λ s. fold_step earlier s ev >>= final)
        (sym (fold-eq-fold_loop first rest (LooksBackFrom-front 0 log (ev ∷ []) h)))

-- Rolling back: after a compensating event that restores sequence `n`, the state of a job that
-- could be read is the state folded from its first `n` events, but for the kinds seen, which are
-- those of the whole log.
pub rollback :
    (first : Event) (rest : List Event) (ev : Event) (n : ℕ) (state : JobState)
    → IsCompensable ((first ∷ rest) ++ ev ∷ [])
    → is_compensation ev.kind ≡ true
    → restores_state_at ev.payload ≡ ok n
    → fold (first ∷ rest) ≡ ok state
    → fold ((first ∷ rest) ++ ev ∷ []) ≡ (
        fold (take n (first ∷ rest)) >>= λ before.
        ok (with_seen ((first ∷ rest) ++ ev ∷ []) before))
unfolding fold_step
rollback first rest ev n state h comp restores read =
    fold-snoc first rest ev h ∙ rw (read, comp, restores)
