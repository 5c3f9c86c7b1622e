-- ===== src/State/Projection/Total.antt =====
-- When the fold of a log succeeds.
use rda_data_director.Prelude.{
  ℕ, zero, suc, ◌+◌, ◌≤◌, ◌<◌, ◌≡◌, ◌≢◌, refl, ◌⊎◌, inl, inr, List, [], ◌∷◌, Option, none, some,
  Result, ok, err, ◌>>=◌, Error, true, arith, length, length-take_le, take, All, Bool-cases,
}
use rda_data_director.Contracts.Payload.{Json, null, get, find}
use rda_data_director.Contracts.Sensitivity.{Classification, tighten}
use rda_data_director.Contracts.Events.{Event, EventKind}
use rda_data_director.State.Projection.{
  JobState, new_state, is_compensation, restores_state_at, sensitivity_of, artefacts_of, confirm,
  rationale_of, updated, apply, fold_step, fold_loop, fold, scan_level,
}
use rda_data_director.State.Projection.Fuel.{
  LooksBackFrom, IsCompensable, LooksBackFrom-take, fold-eq-fold_loop,
}

abbrev pub Succeeds {ℓ} : {A : Type ℓ} → Result A → Type ℓ
Succeeds {A = A} r = (a : A) × (r ≡ ok a)

-- The payload holds what the fold reads from an event of its kind: a level that is a sensitivity
-- class or absent, a rationale that is text or absent, artefacts that can be iterated, and for a
-- compensation the sequence to restore.
pub record IsReadable (ev : Event) : Type 0 where
  pub level :
      (ev.kind ≡ EventKind.declaration_confirmed) ⊎ (ev.kind ≡ EventKind.classification_completed)
      → (get "sensitivity" ev.payload ≡ null)
        ⊎ Succeeds (sensitivity_of (get "sensitivity" ev.payload))
  pub rationale :
      ev.kind ≡ EventKind.classification_completed
      → Succeeds (rationale_of (find "rationale" ev.payload))
  pub artefacts :
      ev.kind ≡ EventKind.material_registered
      → Succeeds (artefacts_of (find "artefacts" ev.payload))
  pub restores :
      ev.kind ≡ EventKind.compensated → (n : ℕ) × (restores_state_at ev.payload ≡ ok (suc n))

Succeeds-of_no_error {ℓ} : {A : Type ℓ} (r : Result A) → ((e : Error) → r ≢ err e) → Succeeds r
Succeeds-of_no_error (ok a) no_error = (a, refl)
Succeeds-of_no_error (err e) no_error = absurd (no_error e refl)

confirm-Succeeds :
    (state : JobState) (ev : Event) (level : Json)
    → (level ≡ null) ⊎ Succeeds (sensitivity_of level)
    → Succeeds (confirm state ev level)
confirm-Succeeds state ev null h = (state, refl)
confirm-Succeeds state ev level h =
    Succeeds-of_no_error (confirm state ev level) (λ e failed. ground arith)

scan-Succeeds :
    (state : JobState) (ev : Event) (current : Option Classification) (level : Json)
    → (level ≡ null) ⊎ Succeeds (sensitivity_of level)
    → Succeeds (rationale_of (find "rationale" ev.payload))
    → Succeeds (scan_level state ev current level)
unfolding tighten
scan-Succeeds state ev none level h (r, read) = (state, refl)
scan-Succeeds state ev (some c) level h (r, read) =
    Succeeds-of_no_error (scan_level state ev (some c) level) (λ e failed. ground arith)

bind-Succeeds {ℓ κ} :
    {A : Type ℓ} {B : Type κ} (m : Result A) (f : A → Result B)
    → Succeeds m
    → ((a : A) → m ≡ ok a → Succeeds (f a))
    → Succeeds (m >>= f)
bind-Succeeds (ok a) f h k = k a refl
bind-Succeeds (err e) f h k = absurd (cc (h.1))

updated-Succeeds :
    (state : JobState) (ev : Event) (k : EventKind)
    → ev.kind ≡ k
    → IsReadable ev
    → Succeeds (updated state ev k)
unfolding updated
updated-Succeeds state ev EventKind.declaration_confirmed e r =
    bind-Succeeds (confirm state ev (get "sensitivity" ev.payload)) _
      (confirm-Succeeds state ev (get "sensitivity" ev.payload) (r.level (inl e)))
      (λ confirmed _. (_, refl))
updated-Succeeds state ev EventKind.classification_completed e r =
    scan-Succeeds state ev state.classification (get "sensitivity" ev.payload) (r.level (inr e))
      (r.rationale e)
updated-Succeeds state ev EventKind.material_registered e r =
    bind-Succeeds (artefacts_of (find "artefacts" ev.payload)) _ (r.artefacts e)
      (λ artefacts _. (_, refl))
updated-Succeeds state ev _ e r = (_, refl)

apply-Succeeds : (state : JobState) (ev : Event) → IsReadable ev → Succeeds (apply state ev)
unfolding apply
apply-Succeeds state ev r = elim (Bool-cases (is_compensation ev.kind)) [
  | inl comp ↦ rw comp (state, refl)
  | inr plain ↦ rw plain (
      bind-Succeeds (updated state ev ev.kind) _ (updated-Succeeds state ev ev.kind refl r)
        (λ after _. (_, refl)))
]

compensation_kind : (k : EventKind) → is_compensation k ≡ true → k ≡ EventKind.compensated
compensation_kind EventKind.compensated h = refl
compensation_kind _ h = cc

module _ (restore : ℕ → Result JobState) where
  fold_loop-Succeeds :
      (before : ℕ) (events : List Event) (state : JobState)
      → LooksBackFrom before events
      → All IsReadable events
      → ((n : ℕ) → suc n < before + length events → Succeeds (restore (suc n)))
      → Succeeds (fold_loop restore state events)
  unfolding fold_loop fold_step
  fold_loop-Succeeds before [] state h r earlier = (state, refl)
  fold_loop-Succeeds before (ev ∷ rest) state h r earlier =
      bind-Succeeds (fold_step restore state ev) _ one (λ next _.
        fold_loop-Succeeds (suc before) rest next h.1 r.1 (λ n lt. earlier n (omega arith)))
    where
      one : Succeeds (fold_step restore state ev)
      one = elim (Bool-cases (is_compensation ev.kind)) [
        | inl comp ↦
            let (n, restores) = (r.0).restores (compensation_kind ev.kind comp) in
            rw (comp, restores) (earlier n (omega (arith, h.0 (suc n) comp restores)))
        | inr plain ↦ rw plain (apply-Succeeds state ev r.0)
      ]

All-take {ℓ κ} : {A : Type ℓ} (P : A → Type κ) (n : ℕ) (xs : List A) → All P xs → All P (take n xs)
All-take P zero xs h = tt
All-take P (suc n) [] h = tt
All-take P (suc n) (x ∷ xs) h = (h.0, All-take P n xs h.1)

fold-Succeeds_below :
    (bound : ℕ) (first : Event) (rest : List Event)
    → length (first ∷ rest) ≤ bound
    → IsCompensable (first ∷ rest)
    → All IsReadable (first ∷ rest)
    → Succeeds (fold (first ∷ rest))
fold-Succeeds_below zero first rest le h r = absurd (omega arith)
fold-Succeeds_below (suc bound) first rest le h r = rw (fold-eq-fold_loop first rest h) (
    bind-Succeeds
      (fold_loop (λ n. fold (take n (first ∷ rest))) (new_state first.job_id) (first ∷ rest)) _
      (fold_loop-Succeeds (λ n. fold (take n (first ∷ rest))) 0 (first ∷ rest)
        (new_state first.job_id) h r
        (λ n lt.
          fold-Succeeds_below bound first (take n rest)
            (omega (arith, length-take_le n rest (omega arith)))
            (LooksBackFrom-take (suc n) 0 (first ∷ rest) h)
            (All-take IsReadable (suc n) (first ∷ rest) r)))
      (λ state _. (_, refl)))

-- The fold ends with a state, and raises nothing, on every log of readable events whose
-- compensations restore one of the events before them.
pub fold_total :
    (first : Event) (rest : List Event)
    → IsCompensable (first ∷ rest)
    → All IsReadable (first ∷ rest)
    → (state : JobState) × (fold (first ∷ rest) ≡ ok state)
fold_total first rest h r = fold-Succeeds_below (length (first ∷ rest)) first rest (omega arith) h r
