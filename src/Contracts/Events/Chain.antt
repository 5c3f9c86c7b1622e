-- ===== src/Contracts/Events/Chain.antt =====
-- What `verify_chain` accepts: exactly the chained logs, their tamper evidence, and what it cannot
-- see.
use native.Mathlib.Nat.{add-zero, add-suc, suc-add}
use rda_data_director.Prelude.{
  ℕ, suc, ◌+◌, ◌≡◌, refl, ◌∙◌, ap, ◌↔◌, true, List, [], ◌∷◌, ◌++◌, Option, none, some, ok, arith,
  length,
}
use rda_data_director.Contracts.Primitives.{Digest, digest_eq_iff}
use rda_data_director.Contracts.Events.{Event, is_digest, verify_from, verify_chain}

-- Event `ev` may stand at position `i` behind `before`.
abbrev pub Follows : (Event → Digest) → ℕ → Option Event → Event → Type 0
Follows digest_of i none ev = ev.sequence ≡ suc i
Follows digest_of i (some before) ev =
    (ev.sequence ≡ suc i) × (ev.prev_digest ≡ some (digest_of before))

abbrev pub IsChainFrom : (Event → Digest) → ℕ → Option Event → List Event → Type 0
IsChainFrom digest_of i before [] = Unit
IsChainFrom digest_of i before (ev ∷ events) =
    Follows digest_of i before ev × IsChainFrom digest_of (suc i) (some ev) events

abbrev pub IsChain : (Event → Digest) → List Event → Type 0
IsChain digest_of events = IsChainFrom digest_of 0 none events

is_digest_iff : (p : Option Digest) (d : Digest) → (is_digest p d ≡ true) ↔ (p ≡ some d)
is_digest_iff none d = ((λ h. cc), (λ h. cc))
is_digest_iff (some p) d =
    ((λ h. ap some ((digest_eq_iff p d).0 h)), (λ h. (digest_eq_iff p d).1 (cc)))

-- The event before whatever comes after `xs`.
abbrev pub last_or : Option Event → List Event → Option Event
last_or before [] = before
last_or before (x ∷ xs) = last_or (some x) xs

module _ (digest_of : Event → Digest) where
  verify_from→IsChainFrom :
      (i : ℕ) (before : Option Event) (events : List Event)
      → verify_from digest_of i before events ≡ ok tt
      → IsChainFrom digest_of i before events
  unfolding verify_from
  verify_from→IsChainFrom i before [] h = tt
  verify_from→IsChainFrom i none (ev ∷ events) h =
      ground (arith, verify_from→IsChainFrom (suc i) (some ev) events)
  verify_from→IsChainFrom i (some before) (ev ∷ events) h = ground (
    arith,
    is_digest_iff ev.prev_digest (digest_of before),
    verify_from→IsChainFrom (suc i) (some ev) events,
  )

  IsChainFrom→verify_from :
      (i : ℕ) (before : Option Event) (events : List Event)
      → IsChainFrom digest_of i before events
      → verify_from digest_of i before events ≡ ok tt
  unfolding verify_from
  IsChainFrom→verify_from i before [] h = refl
  IsChainFrom→verify_from i none (ev ∷ events) h =
      ground (arith, IsChainFrom→verify_from (suc i) (some ev) events)
  IsChainFrom→verify_from i (some before) (ev ∷ events) h = ground (
    arith,
    is_digest_iff ev.prev_digest (digest_of before),
    IsChainFrom→verify_from (suc i) (some ev) events,
  )

  -- `verify_chain` accepts a log exactly when the events are numbered from 1 without a gap and each
  -- event but the first records the digest of the one before it.
  pub verify_chain_iff :
      (events : List Event) → (verify_chain digest_of events ≡ ok tt) ↔ IsChain digest_of events
  unfolding verify_chain
  verify_chain_iff events =
      (verify_from→IsChainFrom 0 none events, IsChainFrom→verify_from 0 none events)

  pub IsChainFrom-append :
      (i : ℕ) (before : Option Event) (xs ys : List Event)
      → IsChainFrom digest_of i before xs
      → IsChainFrom digest_of (i + length xs) (last_or before xs) ys
      → IsChainFrom digest_of i before (xs ++ ys)
  IsChainFrom-append i before [] ys hx hy = rw add-zero at hy
  IsChainFrom-append i before (x ∷ xs) ys hx hy =
      (hx.0, IsChainFrom-append (suc i) (some x) xs ys hx.1 (rw (add-suc, ← suc-add) at hy))

  pub IsChainFrom-parts :
      (i : ℕ) (before : Option Event) (xs ys : List Event)
      → IsChainFrom digest_of i before (xs ++ ys)
      → IsChainFrom digest_of i before xs
        × IsChainFrom digest_of (i + length xs) (last_or before xs) ys
  IsChainFrom-parts i before [] ys h = (tt, rw add-zero h)
  IsChainFrom-parts i before (x ∷ xs) ys h =
      let (front, back) = IsChainFrom-parts (suc i) (some x) xs ys h.1 in
      ((h.0, front), rw (add-suc, ← suc-add) back)

  -- What the chain cannot show: a verified log still verifies after its newest events are cut off,
  -- and after the content of its newest event is replaced, so long as that event's number and
  -- predecessor digest are kept.
  pub tail_unprotected :
      (xs ys : List Event) (e e' : Event)
      → verify_chain digest_of (xs ++ e ∷ ys) ≡ ok tt
      → e'.sequence ≡ e.sequence
      → e'.prev_digest ≡ e.prev_digest
      → (verify_chain digest_of xs ≡ ok tt) × (verify_chain digest_of (xs ++ e' ∷ []) ≡ ok tt)
  tail_unprotected xs ys e e' h same_number same_digest =
      let (front, back) =
        IsChainFrom-parts 0 none xs (e ∷ ys) ((verify_chain_iff (xs ++ e ∷ ys)).0 h) in
      (
        (verify_chain_iff xs).1 front,
        (verify_chain_iff (xs ++ e' ∷ [])).1
            (IsChainFrom-append 0 none xs (e' ∷ []) front (replaced (last_or none xs) back.0, tt)),
      )
    where
      replaced :
          (before : Option Event)
          → Follows digest_of (0 + length xs) before e
          → Follows digest_of (0 + length xs) before e'
      replaced none f = same_number ∙ f
      replaced (some b) f = (same_number ∙ f.0, same_digest ∙ f.1)
