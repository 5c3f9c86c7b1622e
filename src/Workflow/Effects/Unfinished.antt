-- ===== src/Workflow/Effects/Unfinished.antt =====
-- Which attempts `unfinished` reports.
use rda_data_director.Prelude.{
  ℕ, leb, ◌≡◌, refl, sym, ap, ◌∙◌, String, Bool, true, false, not, ◌&&◌, ◌||◌, List, [], ◌∷◌, map,
  ok, ◌>>=◌, bind_inversion, subst, arith, eq_iff, str_eq, contains, any, All, keep_if,
  if◌then◌else◌,
}
use rda_data_director.Contracts.Payload.{
  Json, null, bool, nat, neg, text, array, object, Fields, get, truthy, is_text,
}
use rda_data_director.Contracts.Intents.{validate_intent, validate_intent-key}
use rda_data_director.Contracts.Events.{Event, EventKind}
use rda_data_director.Workflow.Effects.{
  UnfinishedAttempt, Started, put_started, Scan, conclude, start, note, note_event, scan_log,
  insert_started, sort_started, left_open, unfinished_in,
}

abbrev is_start : EventKind → Bool
is_start EventKind.step_started = true
is_start _ = false

abbrev is_conclusion : EventKind → Bool
is_conclusion EventKind.step_completed = true
is_conclusion EventKind.step_failed = true
is_conclusion EventKind.step_reconciled = true
is_conclusion _ = false

-- The event is of an attempt with this key.
abbrev concerns : String → Json → Bool
concerns key v = truthy v && is_text key v

-- The log starts an attempt with this key.
abbrev pub starts : String → List Event → Bool
starts key log = any (λ ev. is_start ev.kind && concerns key (get "idempotency_key" ev.payload)) log

-- The log concludes one, by a completion, a failure or a reconciliation.
abbrev pub concludes : String → List Event → Bool
concludes key log =
    any (λ ev. is_conclusion ev.kind && concerns key (get "idempotency_key" ev.payload)) log

abbrev started_keys : Started → List String
started_keys started = map (λ x. x.0) started

-- Each attempt stands under the key of its intent.
abbrev IsKeyed : Started → Type 0
IsKeyed started = All (λ x. x.1.intent.idempotency_key ≡ x.0) started

-- What is started after an event, and what is concluded.
record IsNoted (key : String) (scan next : Scan) (starting concluding : Bool) : Type 0 where
  begun : contains (started_keys next.0) key ≡ (contains (started_keys scan.0) key || starting)
  done : contains next.1 key ≡ (contains scan.1 key || concluding)
  keyed : IsKeyed scan.0 → IsKeyed next.0

IsKeyed-put_started :
    (a : UnfinishedAttempt) (started : Started)
    → IsKeyed started
    → IsKeyed (put_started a.intent.idempotency_key a started)
IsKeyed-put_started a [] k = (refl, tt)
IsKeyed-put_started a ((l, b) ∷ rest) (here, more) =
    by_test (str_eq l a.intent.idempotency_key) refl (IsKeyed-put_started a rest more)
  where
    by_test :
        (t : Bool)
        → str_eq l a.intent.idempotency_key ≡ t
        → IsKeyed (put_started a.intent.idempotency_key a rest)
        → IsKeyed
            (if t then (l, a) ∷ rest else (l, b) ∷ put_started a.intent.idempotency_key a rest)
    by_test true same below = (sym ((eq_iff l a.intent.idempotency_key).0 same), more)
    by_test false other below = (here, below)

contains-put_started :
    (key k : String) (a : UnfinishedAttempt) (started : Started)
    → contains (started_keys (put_started k a started)) key
      ≡ (contains (started_keys started) key || str_eq k key)
contains-put_started key k a [] = ground arith
contains-put_started key k a ((l, b) ∷ rest) =
    ground (arith, contains-put_started key k a rest, eq_iff l k)

IsNoted-same : {key : String} {scan next : Scan} → scan ≡ next → IsNoted key scan next false false
IsNoted-same {key} {scan} {next} same = record {
  begun = ap (λ (n : Scan). contains (started_keys n.0) key) (sym same) ∙ or_false _;
  done = ap (λ (n : Scan). contains n.1 key) (sym same) ∙ or_false _;
  keyed = λ k. subst (λ (n : Scan). IsKeyed n.0) same k;
}
  where
    or_false : (b : Bool) → b ≡ (b || false)
    or_false b = ground arith

ok-same : {a b : Scan} → ok a ≡ ok b → a ≡ b
ok-same e = cc

conclude-IsNoted :
    (key : String) (scan next : Scan) (v : Json)
    → conclude scan v ≡ ok next
    → IsNoted key scan next false (is_text key v)
conclude-IsNoted key (started, concluded) next (text k) h =
    subst (λ n. IsNoted key (started, concluded) n false (str_eq k key)) (ok-same h)
      (record { begun = ground arith; done = ground (arith, eq_iff k key); keyed = λ k. k })
conclude-IsNoted key scan next (array vs) h = cc
conclude-IsNoted key scan next (object fs) h = cc
conclude-IsNoted key scan next null h = IsNoted-same (ok-same h)
conclude-IsNoted key scan next (bool b) h = IsNoted-same (ok-same h)
conclude-IsNoted key scan next (nat n) h = IsNoted-same (ok-same h)
conclude-IsNoted key scan next (neg n) h = IsNoted-same (ok-same h)

start-IsNoted :
    (key : String) (scan next : Scan) (n : ℕ) (payload : Fields)
    → (validate_intent payload >>= λ i. ok (start scan n i)) ≡ ok next
    → IsNoted key scan next (is_text key (get "idempotency_key" payload)) false
start-IsNoted key (started, concluded) next n payload h =
    let (i, valid, same) =
      bind_inversion (validate_intent payload) (λ i. ok (start (started, concluded) n i)) h in
    let named = validate_intent-key payload i valid in
    let a : UnfinishedAttempt = record { sequence = n; intent = i } in
    subst
      (λ m. IsNoted key (started, concluded) m (is_text key (get "idempotency_key" payload)) false)
      (ok-same same)
      (record {
        begun =
            contains-put_started key i.idempotency_key a started
            ∙ ap (λ v. contains (started_keys started) key || is_text key v) (sym named);
        done = ground arith;
        keyed = λ k. IsKeyed-put_started a started k;
      })

note-IsNoted :
    (key : String) (scan next : Scan) (kind : EventKind) (n : ℕ) (payload : Fields)
    → note scan kind n payload ≡ ok next
    → IsNoted key scan next
        (is_start kind && is_text key (get "idempotency_key" payload))
        (is_conclusion kind && is_text key (get "idempotency_key" payload))
note-IsNoted key scan next EventKind.step_started n payload h =
    start-IsNoted key scan next n payload h
note-IsNoted key scan next EventKind.step_completed n payload h =
    conclude-IsNoted key scan next (get "idempotency_key" payload) h
note-IsNoted key scan next EventKind.step_failed n payload h =
    conclude-IsNoted key scan next (get "idempotency_key" payload) h
note-IsNoted key scan next EventKind.step_reconciled n payload h =
    conclude-IsNoted key scan next (get "idempotency_key" payload) h
note-IsNoted key scan next kind n payload h = IsNoted-same (ok-same h)

note_event-IsNoted :
    (key : String) (scan next : Scan) (ev : Event)
    → note_event scan ev ≡ ok next
    → IsNoted key scan next
        (is_start ev.kind && concerns key (get "idempotency_key" ev.payload))
        (is_conclusion ev.kind && concerns key (get "idempotency_key" ev.payload))
unfolding note_event
note_event-IsNoted key scan next ev h = by_key (truthy (get "idempotency_key" ev.payload)) h
  where
    by_key :
        (t : Bool)
        → (if t then note scan ev.kind ev.sequence ev.payload else ok scan) ≡ ok next
        → IsNoted key scan next
            (is_start ev.kind && (t && is_text key (get "idempotency_key" ev.payload)))
            (is_conclusion ev.kind && (t && is_text key (get "idempotency_key" ev.payload)))
    by_key true h = note-IsNoted key scan next ev.kind ev.sequence ev.payload h
    by_key false h =
        rw (and_false (is_start ev.kind))
          (rw (and_false (is_conclusion ev.kind)) (IsNoted-same (ok-same h)))
      where
        and_false : (b : Bool) → (b && false) ≡ false
        and_false b = ground arith

scan_log-IsNoted :
    (key : String) (scan next : Scan) (log : List Event)
    → scan_log scan log ≡ ok next
    → IsNoted key scan next (starts key log) (concludes key log)
unfolding scan_log
scan_log-IsNoted key scan next [] h = IsNoted-same (ok-same h)
scan_log-IsNoted key scan next (ev ∷ log) h =
    let (mid, first, rest) = bind_inversion (note_event scan ev) (λ m. scan_log m log) h in
    let a = note_event-IsNoted key scan mid ev first in
    let b = scan_log-IsNoted key mid next log rest in
    record {
      begun = b.begun ∙ ap (λ x. x || starts key log) a.begun ∙ ground arith;
      done = b.done ∙ ap (λ x. x || concludes key log) a.done ∙ ground arith;
      keyed = λ k. b.keyed (a.keyed k);
    }

contains-insert_started :
    (key : String) (x : String × UnfinishedAttempt) (rest : Started)
    → contains (started_keys (insert_started x rest)) key
      ≡ (str_eq x.0 key || contains (started_keys rest) key)
contains-insert_started key (k, a) [] = refl
contains-insert_started key (k, a) ((l, b) ∷ rest) =
    ground (arith, contains-insert_started key (k, a) rest)

contains-sort_started :
    (key : String) (started : Started)
    → contains (started_keys (sort_started started)) key ≡ contains (started_keys started) key
contains-sort_started key [] = refl
contains-sort_started key (x ∷ rest) =
    ground
      (arith, contains-insert_started key x (sort_started rest), contains-sort_started key rest)

IsKeyed-insert_started :
    (x : String × UnfinishedAttempt) (rest : Started)
    → x.1.intent.idempotency_key ≡ x.0
    → IsKeyed rest
    → IsKeyed (insert_started x rest)
IsKeyed-insert_started (k, a) [] same keyed = (same, tt)
IsKeyed-insert_started (k, a) ((l, b) ∷ rest) same (here, more) =
    by_test (leb a.sequence b.sequence) (IsKeyed-insert_started (k, a) rest same more)
  where
    by_test :
        (t : Bool)
        → IsKeyed (insert_started (k, a) rest)
        → IsKeyed (if t then (k, a) ∷ (l, b) ∷ rest else (l, b) ∷ insert_started (k, a) rest)
    by_test true below = (same, (here, more))
    by_test false below = (here, below)

IsKeyed-sort_started : (started : Started) → IsKeyed started → IsKeyed (sort_started started)
IsKeyed-sort_started [] keyed = tt
IsKeyed-sort_started (x ∷ rest) (here, more) =
    IsKeyed-insert_started x (sort_started rest) here (IsKeyed-sort_started rest more)

-- The keys of some attempts.
abbrev pub attempt_keys : List UnfinishedAttempt → List String
attempt_keys attempts = map (λ a. a.intent.idempotency_key) attempts

contains-kept :
    (key : String) (concluded : List String) (started : Started)
    → IsKeyed started
    → contains
        (attempt_keys (map (λ x. x.1) (keep_if (λ x. not (contains concluded x.0)) started)))
        key
      ≡ (contains (started_keys started) key && not (contains concluded key))
contains-kept key concluded [] keyed = refl
contains-kept key concluded (x ∷ rest) (here, more) =
    ground (arith, contains-kept key concluded rest more, eq_iff x.0 key)

-- `unfinished` reports an attempt exactly when the log starts one with its key and nowhere concludes
-- one with that key, whichever of the two comes first: after a failure of an attempt is recorded,
-- a retry under the same key is not reported, even if the log shows no end of the retry.
pub unfinished_exact :
    (log : List Event) (attempts : List UnfinishedAttempt) (key : String)
    → unfinished_in log ≡ ok attempts
    → contains (attempt_keys attempts) key ≡ (starts key log && not (concludes key log))
unfolding unfinished_in
unfinished_exact log attempts key h =
    let (scan, scanned, left) = bind_inversion (scan_log ([], []) log) (λ s. ok (left_open s)) h in
    let noted = scan_log-IsNoted key ([], []) scan log scanned in
    let same : left_open scan ≡ attempts = cc in
    ap (λ l. contains (attempt_keys l) key) (sym same)
    ∙ contains-kept key scan.1 (sort_started scan.0) (IsKeyed-sort_started scan.0 (noted.keyed tt))
    ∙ ap (λ b. b && not (contains scan.1 key)) (contains-sort_started key scan.0)
    ∙ ap (λ b. b && not (contains scan.1 key)) noted.begun
    ∙ ap (λ b. starts key log && not b) noted.done
