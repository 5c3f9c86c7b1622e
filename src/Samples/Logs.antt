-- ===== src/Samples/Logs.antt =====
-- A small log of one job, a hash that stands for SHA-256 in the samples (the number of the event),
-- and an empty store.
use rda_data_director.Prelude.{
  ◌-◌, ◌&&◌, leb, false, if◌then◌else◌, ℕ, zero, suc, String, List, [], ◌∷◌, Option, none, some,
}
use rda_data_director.Contracts.Primitives.{Orcid, Digest}
use rda_data_director.Contracts.Payload.{nat, text, Fields, end, field}
use rda_data_director.Contracts.Events.{Event, EventKind}
use rda_data_director.State.Store.{Store, event_file, whole}

abbrev pub job : String
job = "job-0123456789ABCDEFGHJKMNPQRS"

abbrev pub ada : Orcid
ada = record { value = "0000-0002-1825-0097" }

abbrev pub sample_event : ℕ → EventKind → Option Orcid → Fields → Option Digest → Event
sample_event n kind human payload prev = record {
  sequence = n;
  job_id = job;
  kind = kind;
  occurred_at = 100;
  agent = "tester/1";
  human = human;
  payload = payload;
  prev_digest = prev;
}

abbrev pub digit : ℕ → String
digit zero = "0"
digit (suc zero) = "1"
digit (suc (suc zero)) = "2"
digit (suc (suc (suc zero))) = "3"
digit _ = "9"

abbrev pub sample_digest : Event → Digest
sample_digest ev = record { algorithm = "sha256"; value = digit ev.sequence }

abbrev pub created : Event
created = sample_event 1 EventKind.workflow_created none end none

abbrev pub confirmed : Event
confirmed =
    sample_event 2 EventKind.declaration_confirmed (some ada) (field "sensitivity" (nat 1) end)
      (some (sample_digest created))

abbrev pub scanned : Event
scanned =
    sample_event 3 EventKind.classification_completed none (field "sensitivity" (nat 2) end)
      (some (sample_digest confirmed))

abbrev pub undone : Event
undone =
    sample_event 4 EventKind.compensated (some ada)
      (field "compensates_sequence" (nat 3)
        (field "restores_state_at_sequence" (nat 2) (field "reason" (text "wrong scan") end)))
      (some (sample_digest scanned))

abbrev pub sample_log : List Event
sample_log = created ∷ confirmed ∷ scanned ∷ []

abbrev pub empty_store : Store
empty_store = record { dirs = []; clock = 100; pid = 7 }

abbrev pub bob : Orcid
bob = record { value = "0000-0001-5109-3700" }

-- A log that records who made the job, and one with an owner added.
abbrev pub born : Event
born = sample_event 1 EventKind.workflow_created none (field "created_by" (text ada.value) end) none

abbrev pub shared : Event
shared =
    sample_event 2 EventKind.owner_added (some ada) (field "owner" (text bob.value) end)
      (some (sample_digest born))

abbrev pub born_store : Store
born_store = record {
  dirs = record { job_id = job; held = false; entries = event_file 1 100 (whole born) ∷ [] } ∷ [];
  clock = 100;
  pid = 7;
}

abbrev pub shared_store : Store
shared_store = record {
  dirs =
      record {
        job_id = job;
        held = false;
        entries = event_file 1 100 (whole born) ∷ event_file 2 100 (whole shared) ∷ [];
      }
      ∷ [];
  clock = 200;
  pid = 8;
}

-- The decimal digits of ASCII.
abbrev pub ascii_decimal : ℕ → Option ℕ
ascii_decimal c = if leb 48 c && leb c 57 then some (c - 48) else none

abbrev pub zero_digest : List ℕ → Digest
zero_digest bytes = record { algorithm = "sha256"; value = "0" }
