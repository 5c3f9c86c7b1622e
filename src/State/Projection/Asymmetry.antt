-- ===== src/State/Projection/Asymmetry.antt =====
-- The tightening asymmetry on the log: what an event that names no person does to a classification.
use rda_data_director.Prelude.{
  ◌≤◌, ◌≡◌, ◌≢◌, refl, sym, ◌∙◌, subst, Bool-cases, inl, inr, List, [], ◌∷◌, ◌++◌, Option, none,
  some, ok, ◌>>=◌, false, arith, bind_inversion,
}
use rda_data_director.Contracts.Payload.{Json, get}
use rda_data_director.Contracts.Sensitivity.{Classification, level_value, tighten}
use rda_data_director.Contracts.Events.{Event, EventKind, construct}
use rda_data_director.State.Projection.{
  JobState, is_compensation, updated, apply, fold_step, fold, with_seen, scan_level, moved,
}
use rda_data_director.State.Projection.Fuel.{IsCompensable}
use rda_data_director.State.Projection.Rollback.{fold-snoc}

-- `after` is at least as restrictive as `before`, and a classification is not lost.
abbrev pub AtLeast : Option Classification → Option Classification → Type 0
AtLeast none after = Unit
AtLeast (some c) none = ⊥
AtLeast (some c) (some d) = level_value c.level ≤ level_value d.level

AtLeast-refl : (c : Option Classification) → AtLeast c c
AtLeast-refl none = tt
AtLeast-refl (some c) = omega arith

scan-AtLeast :
    (state : JobState) (ev : Event) (current : Option Classification) (level : Json)
    (after : JobState)
    → state.classification ≡ current
    → scan_level state ev current level ≡ ok after
    → AtLeast current after.classification
unfolding tighten
scan-AtLeast state ev none level after e h = tt
scan-AtLeast state ev (some c) level after e h = ground arith

-- An event that is no human act keeps the classification or raises it.
updated-AtLeast :
    (state : JobState) (ev : Event) (k : EventKind) (after : JobState)
    → k ≢ EventKind.declaration_confirmed
    → updated state ev k ≡ ok after
    → AtLeast state.classification after.classification
unfolding updated
updated-AtLeast state ev EventKind.declaration_confirmed after other h = absurd (other refl)
updated-AtLeast state ev EventKind.classification_completed after other h =
    scan-AtLeast state ev state.classification (get "sensitivity" ev.payload) after refl h
updated-AtLeast state ev EventKind.material_registered after other h =
    subst (AtLeast state.classification) (ground arith) (AtLeast-refl state.classification)
updated-AtLeast state ev EventKind.instructions_received after other h =
    subst (AtLeast state.classification) (ground arith) (AtLeast-refl state.classification)
updated-AtLeast state ev _ after other h =
    subst (AtLeast state.classification) (ground arith) (AtLeast-refl state.classification)

apply-AtLeast :
    (state : JobState) (ev : Event) (after : JobState)
    → ev.kind ≢ EventKind.declaration_confirmed
    → apply state ev ≡ ok after
    → AtLeast state.classification after.classification
unfolding apply
apply-AtLeast state ev after other h = elim (Bool-cases (is_compensation ev.kind)) [
  | inl comp ↦
      let same : ok state ≡ ok after = rw comp at h in
      subst (λ s. AtLeast state.classification s.classification) (ok_injective same)
        (AtLeast-refl state.classification)
  | inr plain ↦
      let h' : (updated state ev ev.kind >>= λ m. ok (moved state ev.kind m)) ≡ ok after =
        rw plain at h in
      let (middle, ups, done) = bind_inversion (updated state ev ev.kind) _ h' in
      subst (λ s. AtLeast state.classification s.classification) (ok_injective done)
        (updated-AtLeast state ev ev.kind middle other ups)
]
  where
    ok_injective : {s t : JobState} → ok s ≡ ok t → s ≡ t
    ok_injective e = cc

human_act_named :
    (ev : Event)
    → construct ev ≡ ok ev
    → ev.human ≡ none
    → ev.kind ≢ EventKind.declaration_confirmed
unfolding construct
human_act_named ev good anonymous confirmed = ground arith

-- One more event that names no person, and is no roll-back, leaves the classification of a job as
-- restrictive as it was or makes it more so, and never removes it.
pub automated_never_lowers :
    (first : Event) (rest : List Event) (ev : Event) (before after : JobState)
    → IsCompensable ((first ∷ rest) ++ ev ∷ [])
    → construct ev ≡ ok ev
    → ev.human ≡ none
    → is_compensation ev.kind ≡ false
    → fold (first ∷ rest) ≡ ok before
    → fold ((first ∷ rest) ++ ev ∷ []) ≡ ok after
    → AtLeast before.classification after.classification
unfolding fold_step
automated_never_lowers first rest ev before after h good anonymous plain read read' =
    let step : (apply before ev >>= λ next. ok (with_seen ((first ∷ rest) ++ ev ∷ []) next))
        ≡ ok after =
      rw (read, plain) at (sym (fold-snoc first rest ev h) ∙ read') in
    let (next, applied, done) = bind_inversion (apply before ev) _ step in
    subst (λ s. AtLeast before.classification s.classification) (ok_injective done)
      (apply-AtLeast before ev next (human_act_named ev good anonymous) applied)
  where
    ok_injective : {s t : JobState} → ok s ≡ ok t → s ≡ t
    ok_injective e = cc
