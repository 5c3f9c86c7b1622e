-- ===== src/State/Store/Append.antt =====
-- `append` refines the abstract log: the log read back is the old one with one more event.
use rda_data_director.Prelude.{
  ◌+◌, String, ◌≡◌, ◌≢◌, refl, sym, ap, ◌∙◌, subst, List, [], ◌∷◌, ◌++◌, Bool, true, false, Result,
  ok, err, concurrent_append_error, All, All-append, if◌then◌else◌, length,
}
use rda_data_director.Contracts.Primitives.{Digest}
use rda_data_director.Contracts.Events.{Event, construct}
use rda_data_director.State.Store.{
  Store, whole, find_dir, entries_in, held_in, numbered, event_files, read_all, sort_by_number,
  placed, load, append, append_locked, atomic_write, write_steps,
}
use rda_data_director.State.Store.Listing.{read_all-append}
use rda_data_director.State.Store.Tail.{
  Filed, Holds, load_parts, load_of_parts, load-eq_of_files, listing-append, construct-placed,
  verify-placed,
}
use rda_data_director.State.Store.Directory.{
  own_dir, with_dir, written, own_dir_facts, files-with_dir, find_dir-after_steps,
  find_dir-written_ne,
}

module _ (digest_of : Event → Digest) (ev : Event) (s : Store) where
  append_branch :
      (b : Bool) (r : Result (List Event)) (log : List Event)
      → b ≡ false
      → r ≡ ok log
      → (if b
          then (err concurrent_append_error, (with_dir ev s))
          else append_locked digest_of (own_dir ev s) ev (with_dir ev s) r)
        ≡ (ok (placed digest_of log ev), (written ev s) (placed digest_of log ev))
  unfolding append_locked
  append_branch true r log free loads = cc
  append_branch false (ok l) log free loads =
      ap (λ l. (ok (placed digest_of l ev), (written ev s) (placed digest_of l ev)))
        (ok_injective loads)
    where
      ok_injective : ok l ≡ ok log → l ≡ log
      ok_injective e = cc
  append_branch false (err e) log free loads = cc

  pub append-written :
      (log : List Event)
      → Holds digest_of ev.job_id s log
      → append digest_of ev s
        ≡ (ok (placed digest_of log ev), (written ev s) (placed digest_of log ev))
  unfolding append
  append-written log h =
      append_branch (own_dir ev s).held (load digest_of ev.job_id (with_dir ev s)) log
        ((own_dir_facts ev s).2 ∙ h.free)
        (load-eq_of_files digest_of ev.job_id (with_dir ev s) s (files-with_dir ev s) ∙ h.loads)

  files-written :
      (log : List Event)
      → Holds digest_of ev.job_id s log
      → event_files ev.job_id ((written ev s) (placed digest_of log ev))
        ≡ event_files ev.job_id s ++ (length log + 1, whole (placed digest_of log ev)) ∷ []
  files-written log h =
      let event = placed digest_of log ev in
      let (read, chained) = load_parts digest_of ev.job_id s log h.loads in
      ap (λ o. sort_by_number (numbered (entries_in o)))
        ((find_dir-after_steps ev s) atomic_write event)
      ∙ ap (λ es. sort_by_number (numbered (write_steps (with_dir ev s) event atomic_write es)))
          (own_dir_facts ev s).1
      ∙ listing-append digest_of (with_dir ev s) (entries_in (find_dir ev.job_id s.dirs)) log event
          read chained h.filed refl

  pub written-Holds :
      (log : List Event)
      → construct ev ≡ ok ev
      → Holds digest_of ev.job_id s log
      → Holds digest_of ev.job_id
          ((written ev s) (placed digest_of log ev))
          (log ++ placed digest_of log ev ∷ [])
  written-Holds log good h =
      let event = placed digest_of log ev in
      let (read, chained) = load_parts digest_of ev.job_id s log h.loads in
      record {
        free =
            ap held_in ((find_dir-after_steps ev s) atomic_write event)
            ∙ (own_dir_facts ev s).2
            ∙ h.free;
        filed = subst (All Filed) (sym (files-written log h)) (
            All-append Filed (event_files ev.job_id s) ((length log + 1, whole event) ∷ []) h.filed
              (refl, tt));
        loads =
            load_of_parts digest_of ev.job_id ((written ev s) event) (log ++ event ∷ [])
              (ap read_all (files-written log h)
                ∙ read_all-append (event_files ev.job_id s) (length log + 1) event log read
                    (construct-placed digest_of log ev good))
              (verify-placed digest_of log ev chained);
      }

-- On a job that loads and that no other process has locked, `append` returns the event placed
-- behind the current tail; the log then loads as the old one with that event at its end, and the
-- directory of every other job is as it was.
pub append-Holds :
    (digest_of : Event → Digest) (ev : Event) (s : Store) (log : List Event)
    → construct ev ≡ ok ev
    → Holds digest_of ev.job_id s log
    → ((append digest_of ev s).0 ≡ ok (placed digest_of log ev))
      × Holds digest_of ev.job_id (append digest_of ev s).1 (log ++ placed digest_of log ev ∷ [])
      × ((other : String)
          → other ≢ ev.job_id
          → find_dir other (append digest_of ev s).1.dirs ≡ find_dir other s.dirs)
append-Holds digest_of ev s log good h = rw (append-written digest_of ev s log h) (
  refl,
  written-Holds digest_of ev s log good h,
  (find_dir-written_ne ev s) (placed digest_of log ev),
)
