-- ===== src/State/Store/Directory.antt =====
-- The directory of a job while `append` writes to it.
use rda_data_director.Prelude.{String, ◌≡◌, ◌≢◌, refl, ap, List, Option, none, some, arith, eq_iff}
use rda_data_director.Contracts.Events.{Event}
use rda_data_director.State.Store.{
  JobDir, Store, find_dir, put_dir, make_dir, dir_or_new, entries_in, held_in, numbered,
  event_files, sort_by_number, write_atomic, WriteStep, atomic_write, write_steps, write_through,
}
use rda_data_director.State.Store.Listing.{find_dir-put_dir, job_id-find_dir}

module _ (ev : Event) (s : Store) where
  -- The directory of the job, made if it was missing, and the store that has it.
  abbrev pub own_dir : JobDir
  own_dir = make_dir ev.job_id s.dirs

  abbrev pub with_dir : Store
  with_dir = record s { dirs = put_dir own_dir s.dirs }

  -- The store after some steps of the write.
  abbrev pub after_steps : List WriteStep → Event → Store
  after_steps steps event = write_through steps own_dir event with_dir

  abbrev pub written : Event → Store
  written event = write_atomic own_dir event with_dir

  pub own_dir_facts :
      (own_dir.job_id ≡ ev.job_id)
      × (own_dir.entries ≡ entries_in (find_dir ev.job_id s.dirs))
      × (own_dir.held ≡ held_in (find_dir ev.job_id s.dirs))
  own_dir_facts = by_cases (find_dir ev.job_id s.dirs) (job_id-find_dir ev.job_id s.dirs)
    where
      by_cases :
          (o : Option JobDir)
          → ((d : JobDir) → o ≡ some d → d.job_id ≡ ev.job_id)
          → ((dir_or_new ev.job_id o).job_id ≡ ev.job_id)
            × ((dir_or_new ev.job_id o).entries ≡ entries_in o)
            × ((dir_or_new ev.job_id o).held ≡ held_in o)
      by_cases none named = (refl, refl, refl)
      by_cases (some d) named = (named d refl, refl, refl)

  pub find_dir-with_dir : find_dir ev.job_id with_dir.dirs ≡ some own_dir
  find_dir-with_dir = ground (
    arith,
    own_dir_facts,
    eq_iff own_dir.job_id ev.job_id,
    find_dir-put_dir ev.job_id own_dir s.dirs,
  )

  pub files-with_dir : event_files ev.job_id with_dir ≡ event_files ev.job_id s
  files-with_dir = rw find_dir-with_dir (ap (λ es. sort_by_number (numbered es)) own_dir_facts.1)

  pub find_dir-after_steps :
      (steps : List WriteStep) (event : Event)
      → find_dir ev.job_id (after_steps steps event).dirs
        ≡ some (record own_dir { entries = write_steps with_dir event steps own_dir.entries })
  find_dir-after_steps steps event = ground (
    arith,
    own_dir_facts,
    eq_iff own_dir.job_id ev.job_id,
    find_dir-put_dir ev.job_id
        (record own_dir { entries = write_steps with_dir event steps own_dir.entries })
        with_dir.dirs,
  )

  pub find_dir-written_ne :
      (event : Event) (other : String)
      → other ≢ ev.job_id
      → find_dir other (written event).dirs ≡ find_dir other s.dirs
  find_dir-written_ne event other differ = ground (
    arith,
    own_dir_facts,
    eq_iff own_dir.job_id other,
    find_dir-put_dir other
        (record own_dir { entries = write_steps with_dir event atomic_write own_dir.entries })
        with_dir.dirs,
    find_dir-put_dir other own_dir s.dirs,
  )
