-- ===== src/State/Store.antt =====
-- state/store.py: one directory for each job and one file for each event. A file is the number and
-- the time in its name with what it holds, whole or torn: writing and reading an event as JSON is the
-- work of pydantic, and reading one runs the checks of `Event(...)` again.
pub mod Listing
pub mod Tail
pub mod Directory
pub mod Append
pub mod Crash
use Prim.Native.Nat.{Ordering}
use Prim.Native.String.{compare}
use mathlib.Core.Option
use rda_data_director.Prelude.{
  ℕ, suc, ◌+◌, String, Bool, true, false, ◌&&◌, List, [], ◌∷◌, Option, none, some, Result, ok, err,
  ◌>>=◌, ◌>>◌, Error, value_error, chain_integrity_error, concurrent_append_error, leb, ◌==◌,
  str_eq, length, get_last?, if◌then◌else◌,
}
use rda_data_director.Contracts.Primitives.{Digest}
use rda_data_director.Contracts.Events.{Event, construct, verify_chain}

-- What a file holds: a whole event, or a part of its text.
pub data Content : Type 0 where
  whole : Event → Content
  torn : Content

-- An entry of a job's directory.
pub data Entry : Type 0 where
  event_file : (number stamp : ℕ) → Content → Entry
  temporary : (number pid : ℕ) → Content → Entry
  lock_file : Entry

pub record JobDir : Type 0 where
  pub job_id : String
  -- another process holds the lock
  pub held : Bool
  pub entries : List Entry

pub record Store : Type 0 where
  pub dirs : List JobDir
  pub clock : ℕ
  pub pid : ℕ

abbrev pub find_dir : String → List JobDir → Option JobDir
find_dir job [] = none
find_dir job (d ∷ ds) = if str_eq d.job_id job then some d else find_dir job ds

abbrev pub put_dir : JobDir → List JobDir → List JobDir
put_dir new [] = new ∷ []
put_dir new (d ∷ ds) = if str_eq d.job_id new.job_id then new ∷ ds else d ∷ put_dir new ds

-- `sorted(...)` of texts, by insertion from the end of the list.
abbrev pub text_leb : String → String → Bool
text_leb s t = elim (compare s t) [ Ordering.gt ↦ false | _ ↦ true ]

abbrev pub insert_text : String → List String → List String
insert_text s [] = s ∷ []
insert_text s (t ∷ ts) = if text_leb s t then s ∷ t ∷ ts else t ∷ insert_text s ts

abbrev pub job_names : List JobDir → List String
job_names [] = []
job_names (d ∷ ds) = insert_text d.job_id (job_names ds)

-- `list_jobs`
unfoldable pub list_jobs : Store → List String
list_jobs s = job_names s.dirs

-- A numbered file, as `_event_files` lists it.
abbrev pub Numbered : Type 0
Numbered = ℕ × Content

abbrev pub numbered : List Entry → List Numbered
numbered [] = []
numbered (event_file n stamp c ∷ es) = (n, c) ∷ numbered es
numbered (_ ∷ es) = numbered es

-- `sorted(..., key=...)`, stable: by insertion from the end of the list.
abbrev pub insert_by_number : Numbered → List Numbered → List Numbered
insert_by_number (n, c) [] = (n, c) ∷ []
insert_by_number (n, c) ((m, d) ∷ r) =
    if leb n m then (n, c) ∷ (m, d) ∷ r else (m, d) ∷ insert_by_number (n, c) r

abbrev pub sort_by_number : List Numbered → List Numbered
sort_by_number [] = []
sort_by_number (x ∷ r) = insert_by_number x (sort_by_number r)

abbrev pub entries_in : Option JobDir → List Entry
entries_in none = []
entries_in (some d) = d.entries

abbrev pub held_in : Option JobDir → Bool
held_in none = false
held_in (some d) = d.held

-- `_event_files`
abbrev pub event_files : String → Store → List Numbered
event_files job s = sort_by_number (numbered (entries_in (find_dir job s.dirs)))

-- `Event.model_validate_json(...)`: a part of a text is no JSON.
abbrev pub read_event : Content → Result Event
read_event (whole ev) = construct ev
read_event torn = err value_error

-- `[Event.model_validate_json(...) for p in ...]`
unfoldable pub read_all : List Numbered → Result (List Event)
read_all [] = ok []
read_all ((n, c) ∷ r) = do ev' ← read_event c; rest ← read_all r; ok (ev' ∷ rest)

unfoldable pub latest_sequence : String → Store → ℕ
latest_sequence job s = elim (get_last? (event_files job s)) [ none ↦ 0 | some (n, c) ↦ n ]

-- `except ValueError as exc: raise ChainIntegrityError`
abbrev pub as_chain_error : Result (Unit {0}) → Result (Unit {0})
as_chain_error (ok u) = ok u
as_chain_error (err e) = err chain_integrity_error

abbrev digest_after : (Event → Digest) → Option Event → Option Digest
digest_after digest_of none = none
digest_after digest_of (some ev) = some (digest_of ev)

-- The event that `append` writes: placed behind the current tail.
abbrev pub placed : (Event → Digest) → List Event → Event → Event
placed digest_of existing ev = record ev {
  sequence = length existing + 1;
  prev_digest = digest_after digest_of (get_last? existing);
}

-- `d.mkdir(parents=True, exist_ok=True)`
abbrev pub dir_or_new : String → Option JobDir → JobDir
dir_or_new job none = record { job_id = job; held = false; entries = [] }
dir_or_new job (some d) = d

abbrev pub make_dir : String → List JobDir → JobDir
make_dir job ds = dir_or_new job (find_dir job ds)

-- The entry takes the place of one with the same name.
abbrev pub put_file : ℕ → ℕ → Content → List Entry → List Entry
put_file n stamp c [] = event_file n stamp c ∷ []
put_file n stamp c (event_file m old d ∷ es) =
    if n == m && stamp == old
    then event_file n stamp c ∷ es
    else event_file m old d ∷ put_file n stamp c es
put_file n stamp c (e ∷ es) = e ∷ put_file n stamp c es

-- Without the temporary file of this name.
abbrev pub drop_temporary : ℕ → ℕ → List Entry → List Entry
drop_temporary n pid [] = []
drop_temporary n pid (temporary m q c ∷ es) =
    let rest = drop_temporary n pid es in
    if n == m && pid == q then rest else temporary m q c ∷ rest
drop_temporary n pid (event_file m old c ∷ es) = event_file m old c ∷ drop_temporary n pid es
drop_temporary n pid (lock_file ∷ es) = lock_file ∷ drop_temporary n pid es

-- What the temporary file of this name holds.
abbrev pub find_temporary : ℕ → ℕ → List Entry → Option Content
find_temporary n pid [] = none
find_temporary n pid (temporary m q c ∷ es) =
    if n == m && pid == q then some c else find_temporary n pid es
find_temporary n pid (event_file m old c ∷ es) = find_temporary n pid es
find_temporary n pid (lock_file ∷ es) = find_temporary n pid es

-- `os.replace(tmp, final)`: the final file is then what the temporary one was, whole or not.
abbrev pub rename : ℕ → ℕ → ℕ → Option Content → List Entry → List Entry
rename n pid stamp none es = es
rename n pid stamp (some c) es = put_file n stamp c (drop_temporary n pid es)

-- The steps of `_write_atomic` that a crash can fall between or cut off: the temporary file is
-- opened and written in part, it is whole and flushed to disk, and it takes the final name.
pub data WriteStep : Type 0 where
  open_temporary flush_temporary replace_file : WriteStep

abbrev pub write_step : Store → Event → WriteStep → List Entry → List Entry
write_step s ev open_temporary es =
    temporary ev.sequence s.pid torn ∷ drop_temporary ev.sequence s.pid es
write_step s ev flush_temporary es =
    temporary ev.sequence s.pid (whole ev) ∷ drop_temporary ev.sequence s.pid es
write_step s ev replace_file es =
    rename ev.sequence s.pid s.clock (find_temporary ev.sequence s.pid es) es

abbrev pub write_steps : Store → Event → List WriteStep → List Entry → List Entry
write_steps s ev [] es = es
write_steps s ev (step ∷ steps) es = write_steps s ev steps (write_step s ev step es)

abbrev pub atomic_write : List WriteStep
atomic_write = open_temporary ∷ flush_temporary ∷ replace_file ∷ []

-- The store after the given steps of a write to the job directory `d`.
abbrev pub write_through : List WriteStep → JobDir → Event → Store → Store
write_through steps d ev s = record s {
  dirs = put_dir (record d { entries = write_steps s ev steps d.entries }) s.dirs;
}

-- `_write_atomic`
abbrev pub write_atomic : JobDir → Event → Store → Store
write_atomic = write_through atomic_write

module _ (digest_of : Event → Digest) where
  unfoldable pub load : String → Store → Result (List Event)
  unfolding read_all
  load job s = do
    events ← read_all (event_files job s)
    as_chain_error (verify_chain digest_of events)
    ok events

  -- The read, compute and write under the lock.
  append_locked : JobDir → Event → Store → Result (List Event) → Result Event × Store
  append_locked d ev s (err e) = (err e, s)
  append_locked d ev s (ok existing) =
      let event = placed digest_of existing ev in (ok event, write_atomic d event s)

  unfoldable pub append : Event → Store → Result Event × Store
  unfolding append_locked load
  append ev s =
      let d = make_dir ev.job_id s.dirs in
      let s' : Store = record s { dirs = put_dir d s.dirs } in
      if d.held
      then (err concurrent_append_error, s')
      else append_locked d ev s' (load ev.job_id s')
