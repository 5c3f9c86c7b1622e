-- ===== src/State/Store/Tail.antt =====
-- The end of a log: the place of a new event, and what a load and a listing make of it.
use rda_data_director.Prelude.{
  ℕ, suc, ◌+◌, ◌≤◌, String, ◌≡◌, refl, sym, subst, List, [], ◌∷◌, ◌++◌, Option, none, some, false,
  Result, ok, err, arith, All, bind_inversion, length, get_last?,
}
use rda_data_director.Contracts.Primitives.{Digest}
use rda_data_director.Contracts.Events.{Event, construct, verify_chain}
use rda_data_director.Contracts.Events.Chain.{
  IsChainFrom, Follows, last_or, verify_chain_iff, IsChainFrom-append,
}
use rda_data_director.State.Store.{
  Entry, whole, torn, Store, find_dir, held_in, as_chain_error, Numbered, numbered, event_files,
  read_all, sort_by_number, placed, load, atomic_write, write_steps,
}
use rda_data_director.State.Store.Listing.{
  AllBelow, numbered-write_steps, sort_by_number-snoc, All-sort_by_number, construct_same,
}

abbrev pub Filed : Numbered → Type 0
Filed (n, whole ev) = n ≡ ev.sequence
Filed (n, torn) = ⊥

-- The files of a job verify and hold `log`; each is named by its event's number, and no other
-- process holds the lock.
pub record Holds (digest_of : Event → Digest) (job : String) (s : Store) (log : List Event)
    : Type 0 where
  pub free : held_in (find_dir job s.dirs) ≡ false
  pub filed : All Filed (event_files job s)
  pub loads : load digest_of job s ≡ ok log

sequence-le :
    (digest_of : Event → Digest) (k i : ℕ) (before : Option Event) (events : List Event)
    → IsChainFrom digest_of i before events
    → i + length events ≤ k
    → All (λ ev. ev.sequence ≤ k) events
sequence-le digest_of k i before [] h le = tt
sequence-le digest_of k i before (ev ∷ events) h le =
    (first before h.0, sequence-le digest_of k (suc i) (some ev) events h.1 (omega arith))
  where
    first : (b : Option Event) → Follows digest_of i b ev → ev.sequence ≤ k
    first none f = omega arith
    first (some b) f = omega arith

AllBelow-read_all :
    (k : ℕ) (xs : List Numbered) (events : List Event)
    → read_all xs ≡ ok events
    → All Filed xs
    → All (λ ev. ev.sequence ≤ k) events
    → AllBelow (suc k) xs
unfolding read_all
AllBelow-read_all k [] events h filed le = tt
AllBelow-read_all k ((n, torn) ∷ xs) events h filed le = absurd filed.0
AllBelow-read_all k ((n, whole ev) ∷ xs) events h filed le =
    let (ev', same, h') = bind_inversion (construct ev) _ h in
    let (rest, read, done) = bind_inversion (read_all xs) _ h' in
    let all : All (λ e. e.sequence ≤ k) (ev' ∷ rest) =
      subst (λ l. All (λ e. e.sequence ≤ k) l) (sym (ok_injective done)) le in
    (
      ground (arith, filed.0, all.0, construct_same ev ev' same),
      AllBelow-read_all k xs rest read filed.1 all.1,
    )
  where
    ok_injective : {l : List Event} → ok l ≡ ok events → l ≡ events
    ok_injective h = cc

newest :
    (x : Event) (xs : List Event)
    → (y : Event) × (get_last? (x ∷ xs) ≡ some y) × (last_or (some x) xs ≡ some y)
newest x [] = (x, refl, refl)
newest x (y ∷ xs) = newest y xs

Follows-some :
    (digest_of : Event → Digest) (i : ℕ) (o : Option Event) (y ev : Event)
    → o ≡ some y
    → ev.sequence ≡ suc i
    → ev.prev_digest ≡ some (digest_of y)
    → Follows digest_of i o ev
Follows-some digest_of i none y ev o e p = cc
Follows-some digest_of i (some b) y ev o e p = (e, cc)

placed-Follows :
    (digest_of : Event → Digest) (log : List Event) (ev : Event)
    → Follows digest_of (0 + length log) (last_or none log) (placed digest_of log ev)
placed-Follows digest_of [] ev = omega arith
placed-Follows digest_of (x ∷ log) ev =
    let (y, last, last') = newest x log in
    Follows-some digest_of (0 + length (x ∷ log)) (last_or (some x) log) y
      (placed digest_of (x ∷ log) ev) last' (omega arith) (rw last)

-- Placing an event keeps the checks of its construction.
pub construct-placed :
    (digest_of : Event → Digest) (log : List Event) (ev : Event)
    → construct ev ≡ ok ev
    → construct (placed digest_of log ev) ≡ ok (placed digest_of log ev)
unfolding construct
construct-placed digest_of [] ev h = ground arith
construct-placed digest_of (x ∷ log) ev h =
    let (y, last, _) = newest x log in rw last (ground arith)

module _ (digest_of : Event → Digest) where
  pub verify-placed :
      (log : List Event) (ev : Event)
      → verify_chain digest_of log ≡ ok tt
      → verify_chain digest_of (log ++ placed digest_of log ev ∷ []) ≡ ok tt
  verify-placed log ev h = (verify_chain_iff digest_of _).1 (
      IsChainFrom-append digest_of 0 none log (placed digest_of log ev ∷ [])
        ((verify_chain_iff digest_of log).0 h) (placed-Follows digest_of log ev, tt))

  -- A successful load read the files and verified what they hold.
  pub load_parts :
      (job : String) (s : Store) (log : List Event)
      → load digest_of job s ≡ ok log
      → (read_all (event_files job s) ≡ ok log) × (verify_chain digest_of log ≡ ok tt)
  unfolding load
  load_parts job s log h =
      let (events, read, h') = bind_inversion (read_all (event_files job s)) _ h in
      let (_, chained, done) =
        bind_inversion (as_chain_error (verify_chain digest_of events)) _ h' in
      (cc, verified (verify_chain digest_of events) (verify_chain digest_of log) (cc) chained)
    where
      verified :
          (r q : Result (Unit {0})) {u : Unit {0}} → r ≡ q → as_chain_error r ≡ ok u → q ≡ ok tt
      verified (ok u) q e h = sym e
      verified (err x) q e h = cc

  pub load_of_parts :
      (job : String) (s : Store) (log : List Event)
      → read_all (event_files job s) ≡ ok log
      → verify_chain digest_of log ≡ ok tt
      → load digest_of job s ≡ ok log
  unfolding load
  load_of_parts job s log h v = rw (h, v)

  pub load-eq_of_files :
      (job : String) (s t : Store)
      → event_files job s ≡ event_files job t
      → load digest_of job s ≡ load digest_of job t
  unfolding load
  load-eq_of_files job s t e = rw e

  -- One more numbered event at the end of the listing, with its number in the name.
  pub listing-append :
      (s : Store) (xs : List Entry) (log : List Event) (event : Event)
      → read_all (sort_by_number (numbered xs)) ≡ ok log
      → verify_chain digest_of log ≡ ok tt
      → All Filed (sort_by_number (numbered xs))
      → event.sequence ≡ length log + 1
      → sort_by_number (numbered (write_steps s event atomic_write xs))
        ≡ sort_by_number (numbered xs) ++ (event.sequence, whole event) ∷ []
  listing-append s xs log event read chained filed number =
      let chain = (verify_chain_iff digest_of log).0 chained in
      let below : AllBelow (suc (length log)) (sort_by_number (numbered xs)) =
        AllBelow-read_all (length log) (sort_by_number (numbered xs)) log read filed
          (sequence-le digest_of (length log) 0 none log chain (omega arith)) in
      let below' : AllBelow event.sequence (numbered xs) =
        All-sort_by_number _ (numbered xs)
          (subst (λ n. AllBelow n (sort_by_number (numbered xs))) (omega arith) below) in
      rw (numbered-write_steps s event xs below')
        (sort_by_number-snoc event.sequence (whole event) (numbered xs) below')
