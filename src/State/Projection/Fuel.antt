-- ===== src/State/Projection/Fuel.antt =====
-- Logs whose compensations look back: the fold of one does not depend on its fuel.
use native.Mathlib.Nat.{add-zero, add-suc, suc-add}
use rda_data_director.Prelude.{
  ℕ, zero, suc, ◌+◌, ◌≤◌, ◌<◌, ◌≡◌, refl, List, [], ◌∷◌, ◌++◌, Result, ok, ◌>>=◌, true, arith,
  length, take, length-take_le, >>=-cong, Bool-cases, inl, inr,
}
use rda_data_director.Contracts.Events.{Event}
use rda_data_director.State.Projection.{
  JobState, new_state, is_compensation, restores_state_at, fold_step, fold_loop, fold_fuel, fold,
  with_seen,
}

-- A compensating event with `before` events in front of it restores one of those.
abbrev pub LooksBack : ℕ → Event → Type 0
LooksBack before ev =
    (n : ℕ) → is_compensation ev.kind ≡ true → restores_state_at ev.payload ≡ ok n → n ≤ before

abbrev pub LooksBackFrom : ℕ → List Event → Type 0
LooksBackFrom before [] = Unit
LooksBackFrom before (ev ∷ rest) = LooksBack before ev × LooksBackFrom (suc before) rest

-- The first event of the log has nothing to restore.
abbrev pub IsCompensable : List Event → Type 0
IsCompensable events = LooksBackFrom 0 events

pub LooksBackFrom-take :
    (n before : ℕ) (events : List Event)
    → LooksBackFrom before events
    → LooksBackFrom before (take n events)
LooksBackFrom-take zero before events h = tt
LooksBackFrom-take (suc n) before [] h = tt
LooksBackFrom-take (suc n) before (ev ∷ rest) h = (h.0, LooksBackFrom-take n (suc before) rest h.1)

pub LooksBackFrom-append :
    (before : ℕ) (xs ys : List Event)
    → LooksBackFrom before xs
    → LooksBackFrom (before + length xs) ys
    → LooksBackFrom before (xs ++ ys)
LooksBackFrom-append before [] ys hx hy = rw add-zero at hy
LooksBackFrom-append before (x ∷ xs) ys hx hy =
    (hx.0, LooksBackFrom-append (suc before) xs ys hx.1 (rw (add-suc, ← suc-add) at hy))

pub fold_step_agree :
    (r q : ℕ → Result JobState) (bound before : ℕ) (state : JobState) (ev : Event)
    → LooksBack before ev
    → before < bound
    → ((n : ℕ) → n < bound → r n ≡ q n)
    → fold_step r state ev ≡ fold_step q state ev
unfolding fold_step
fold_step_agree r q bound before state ev back le same =
    elim (Bool-cases (is_compensation ev.kind)) [
      | inl yes' ↦ rw yes' (
          >>=-cong (restores_state_at ev.payload) r q
            (λ n e. same n (omega (arith, back n yes' e))))
      | inr no' ↦ rw no'
    ]

pub LooksBackFrom-front :
    (before : ℕ) (xs ys : List Event) → LooksBackFrom before (xs ++ ys) → LooksBackFrom before xs
LooksBackFrom-front before [] ys h = tt
LooksBackFrom-front before (x ∷ xs) ys h = (h.0, LooksBackFrom-front (suc before) xs ys h.1)

-- Two readings of the recursive call that agree on the earlier sequences give the same loop.
pub fold_loop_agree :
    (r q : ℕ → Result JobState) (bound before : ℕ) (events : List Event) (state : JobState)
    → LooksBackFrom before events
    → before + length events ≤ bound
    → ((n : ℕ) → n < bound → r n ≡ q n)
    → fold_loop r state events ≡ fold_loop q state events
unfolding fold_loop
fold_loop_agree r q bound before [] state h le same = refl
fold_loop_agree r q bound before (ev ∷ rest) state h le same =
    rw (fold_step_agree r q bound before state ev h.0 (omega arith) same) (
      >>=-cong (fold_step q state ev) _ _
        (λ next _. fold_loop_agree r q bound (suc before) rest next h.1 (omega arith) same))

length-take-lt : (n : ℕ) (events : List Event) → n < length events → length (take n events) ≡ n
length-take-lt n events h = length-take_le n events (omega arith)

pub fold_fuel_agree :
    (f g : ℕ) (events : List Event)
    → IsCompensable events
    → length events < f
    → length events < g
    → fold_fuel f events ≡ fold_fuel g events
unfolding fold_fuel
fold_fuel_agree zero g events h lf lg = absurd (omega arith)
fold_fuel_agree (suc f) zero events h lf lg = absurd (omega arith)
fold_fuel_agree (suc f) (suc g) [] h lf lg = refl
fold_fuel_agree (suc f) (suc g) (ev ∷ rest) h lf lg = rw (
    fold_loop_agree (λ n. fold_fuel f (take n (ev ∷ rest))) (λ n. fold_fuel g (take n (ev ∷ rest)))
      (length (ev ∷ rest)) 0 (ev ∷ rest) (new_state ev.job_id) h (omega arith)
      (λ n lt.
        fold_fuel_agree f g (take n (ev ∷ rest)) (LooksBackFrom-take n 0 (ev ∷ rest) h)
          (omega (arith, length-take-lt n (ev ∷ rest) lt))
          (omega (arith, length-take-lt n (ev ∷ rest) lt))))

-- The fold of a log whose compensations look back is the loop whose recursive call is the fold.
pub fold-eq-fold_loop :
    (first : Event) (rest : List Event)
    → IsCompensable (first ∷ rest)
    → fold (first ∷ rest) ≡ (
        fold_loop (λ n. fold (take n (first ∷ rest))) (new_state first.job_id) (first ∷ rest)
        >>= λ state. ok (with_seen (first ∷ rest) state))
unfolding fold fold_fuel
fold-eq-fold_loop first rest h =
    let log = first ∷ rest in
    rw (
      fold_loop_agree (λ n. fold_fuel (length log) (take n log)) (λ n. fold (take n log))
        (length log) 0 log (new_state first.job_id) h (omega arith)
        (λ n lt.
          fold_fuel_agree (length log) (suc (length (take n log))) (take n log)
            (LooksBackFrom-take n 0 log h) (omega (arith, length-take-lt n log lt)) (omega arith)))
