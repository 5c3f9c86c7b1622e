-- ===== src/State/Store/Crash.antt =====
-- What is on disk when a write stops half-way, or when an append raises.
use rda_data_director.Prelude.{
  ℕ, zero, suc, String, ◌≡◌, refl, sym, ◌∙◌, ap, subst, ◌⊎◌, inl, inr, Bool, true, false, List, [],
  ◌∷◌, ◌++◌, Result, ok, err, Error, take, eq_iff, if◌then◌else◌, concurrent_append_error, str_eq,
  Bool-cases,
}
use rda_data_director.Contracts.Primitives.{Digest}
use rda_data_director.Contracts.Events.{Event, construct}
use rda_data_director.State.Store.{
  Store, WriteStep, open_temporary, flush_temporary, atomic_write, write_steps, JobDir, entries_in,
  numbered, sort_by_number, event_files, placed, load, append, append_locked,
}
use rda_data_director.State.Store.Listing.{
  numbered-open_temporary, numbered-flush_temporary, find_dir-put_dir,
}
use rda_data_director.State.Store.Tail.{Holds, load-eq_of_files}
use rda_data_director.State.Store.Directory.{
  own_dir, with_dir, after_steps, own_dir_facts, find_dir-after_steps, files-with_dir,
}
use rda_data_director.State.Store.Append.{written-Holds}

-- A step that lists the same numbered files leaves the listing of the job.
files-after_steps :
    (ev : Event) (s : Store) (steps : List WriteStep) (event : Event)
    → numbered (write_steps (with_dir ev s) event steps (own_dir ev s).entries)
      ≡ numbered (own_dir ev s).entries
    → event_files ev.job_id (after_steps ev s steps event) ≡ event_files ev.job_id s
files-after_steps ev s steps event same =
    ap (λ o. sort_by_number (numbered (entries_in o))) (find_dir-after_steps ev s steps event)
    ∙ ap sort_by_number same
    ∙ ap (λ es. sort_by_number (numbered es)) (own_dir_facts ev s).1

-- A write that a crash cuts off after any number of its steps leaves a job that loads, with the
-- old log or with the whole new one, although the crash can leave a file that holds a part of the
-- event.
pub crash_safe :
    (digest_of : Event → Digest) (ev : Event) (s : Store) (log : List Event) (done : ℕ)
    → construct ev ≡ ok ev
    → Holds digest_of ev.job_id s log
    → let event = placed digest_of log ev in
      let crashed = after_steps ev s (take done atomic_write) event in
      (load digest_of ev.job_id crashed ≡ ok log)
      ⊎ (load digest_of ev.job_id crashed ≡ ok (log ++ event ∷ []))
crash_safe digest_of ev s log zero good h = inl (
    load-eq_of_files digest_of ev.job_id _ s
      (files-after_steps ev s [] (placed digest_of log ev) refl)
    ∙ h.loads)
crash_safe digest_of ev s log (suc zero) good h =
    let event = placed digest_of log ev in
    inl (
      load-eq_of_files digest_of ev.job_id _ s (
        files-after_steps ev s (open_temporary ∷ []) event
          (numbered-open_temporary (with_dir ev s) event (own_dir ev s).entries))
      ∙ h.loads)
crash_safe digest_of ev s log (suc (suc zero)) good h =
    let event = placed digest_of log ev in
    inl (
      load-eq_of_files digest_of ev.job_id _ s (
        files-after_steps ev s (open_temporary ∷ flush_temporary ∷ []) event
          (numbered-flush_temporary (with_dir ev s) event (own_dir ev s).entries))
      ∙ h.loads)
crash_safe digest_of ev s log (suc (suc (suc k))) good h =
    inr (rw (take_all k) (written-Holds digest_of ev s log good h).loads)
  where
    take_all : (n : ℕ) → take {A = WriteStep} n [] ≡ []
    take_all zero = refl
    take_all (suc n) = refl

files-with_dir_any :
    (ev : Event) (s : Store) (job : String) → event_files job (with_dir ev s) ≡ event_files job s
files-with_dir_any ev s job = elim (Bool-cases (str_eq (own_dir ev s).job_id job)) [
  | inl same ↦
      let named : ev.job_id ≡ job =
        sym (own_dir_facts ev s).0 ∙ (eq_iff (own_dir ev s).job_id job).0 same in
      subst (λ j. event_files j (with_dir ev s) ≡ event_files j s) named (files-with_dir ev s)
  | inr other ↦ rw (find_dir-put_dir job (own_dir ev s) s.dirs, other)
]

refused_branch :
    (digest_of : Event → Digest) (d : JobDir) (ev : Event) (s : Store) (held : Bool)
    (r : Result (List Event)) (e : Error)
    → (if held then (err concurrent_append_error, s) else append_locked digest_of d ev s r).0
      ≡ err e
    → (if held then (err concurrent_append_error, s) else append_locked digest_of d ev s r).1 ≡ s
unfolding append_locked
refused_branch digest_of d ev s true r e h = refl
refused_branch digest_of d ev s false (ok log) e h = cc
refused_branch digest_of d ev s false (err x) e h = refl

-- An `append` that raises, because another process holds the lock or because the log does not
-- load, leaves the event files of every job as they were.
pub append_refused :
    (digest_of : Event → Digest) (ev : Event) (s : Store) (e : Error) (job : String)
    → (append digest_of ev s).0 ≡ err e
    → event_files job (append digest_of ev s).1 ≡ event_files job s
unfolding append
append_refused digest_of ev s e job h =
    ap (event_files job) (
      refused_branch digest_of (own_dir ev s) ev (with_dir ev s) (own_dir ev s).held
        (load digest_of ev.job_id (with_dir ev s)) e h)
    ∙ files-with_dir_any ev s job
