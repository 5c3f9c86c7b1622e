-- ===== src/Job/Log/Gate.antt =====
-- The gate that is folded from a log, after an entry more.
use mathlib.Core.Path.{fun_ext}
use rda_data_director.Prelude.{
  Bool, inl, inr, Bool-cases, ◌≡◌, refl, sym, ap, ◌∙◌, String, not, ◌||◌, List, [], ◌∷◌, ◌++◌,
  Result, ok, err, ◌>>=◌, bind_ok, bind_inversion, >>=_assoc, arith, eq_iff, contains, keep_if, All,
}
use rda_data_director.Contracts.Payload.{items_list}
use rda_data_director.Contracts.Events.{Event}
use rda_data_director.Contracts.Gate.{GateItem, GateState, construct_item}
use rda_data_director.Contracts.Gate.Open.{ids}
use rda_data_director.Gate.Items.{add}
use rda_data_director.Job.Items.{dump_list, dump_item}
use rda_data_director.Job.Items.Roundtrip.{validate_item-dump_item}
use rda_data_director.Job.Log.{
  validate_all, unique_from, unique_items, note_gate, gate_loop, empty_gate, unique_gate,
  build_gate,
}

pub gate_loop-snoc :
    (gate : GateState) (events : List Event) (ev : Event)
    → gate_loop gate (events ++ ev ∷ [])
      ≡ (gate_loop gate events >>= λ next. note_gate next ev.kind ev)
unfolding gate_loop
gate_loop-snoc gate [] ev = by_result (note_gate gate ev.kind ev)
  where
    by_result : (r : Result GateState) → (r >>= λ next. ok next) ≡ r
    by_result (ok next) = refl
    by_result (err e) = refl
gate_loop-snoc gate (e ∷ events) ev =
    ap (λ f. note_gate gate e.kind e >>= f) (fun_ext (λ next. gate_loop-snoc next events ev))
    ∙ sym (
        >>=_assoc (note_gate gate e.kind e) (λ next. gate_loop next events)
          (λ next. note_gate next ev.kind ev))

abbrev not_named : List String → GateItem → Bool
not_named names item = not (contains names item.item_id)

-- A loop that has seen more answers the items of other names.
unique_from-seen :
    (names : List String) (ys : List GateItem) (more seen : List String)
    → ((s : String) → contains more s ≡ (contains seen s || contains names s))
    → unique_from more ys ≡ keep_if (not_named names) (unique_from seen ys)
unfolding unique_from
unique_from-seen names [] more seen same = refl
unique_from-seen names (y ∷ ys) more seen same = elim (Bool-cases (contains names y.item_id)) [
  | inl named ↦ ground (
    arith,
    same y.item_id,
    unique_from-seen names ys more seen same,
    unique_from-seen names ys more (y.item_id ∷ seen)
        (λ s. ground (arith, same s, eq_iff y.item_id s, named, same y.item_id)),
  )
  | inr other ↦ ground (
    arith,
    same y.item_id,
    unique_from-seen names ys more seen same,
    unique_from-seen names ys (y.item_id ∷ more) (y.item_id ∷ seen) (λ s. ground (arith, same s)),
  )
]

keep_if-none : (items : List GateItem) → keep_if (not_named []) items ≡ items
keep_if-none [] = refl
keep_if-none (i ∷ items) = ap (λ r. i ∷ r) (keep_if-none items)

keep_if-cons :
    (n : String) (names : List String) (items : List GateItem)
    → keep_if (not_named names) (keep_if (not_named (n ∷ [])) items)
      ≡ keep_if (not_named (n ∷ names)) items
keep_if-cons n names [] = refl
keep_if-cons n names (i ∷ items) = ground (arith, keep_if-cons n names items)

unique_from-append :
    (seen : List String) (xs ys : List GateItem)
    → unique_from seen (xs ++ ys)
      ≡ unique_from seen xs ++ keep_if (not_named (ids (unique_from seen xs))) (unique_from seen ys)
unfolding unique_from
unique_from-append seen [] ys = sym (keep_if-none (unique_from seen ys))
unique_from-append seen (x ∷ xs) ys = ground (
  arith,
  unique_from-append seen xs ys,
  unique_from-append (x.item_id ∷ seen) xs ys,
  unique_from-seen (x.item_id ∷ []) ys (x.item_id ∷ seen) seen (λ s. ground arith),
  keep_if-cons x.item_id (ids (unique_from (x.item_id ∷ seen) xs)) (unique_from seen ys),
)

-- The items of a log that grows are added to the gate as `Gate.add` adds them.
pub unique_gate-append :
    (gate : GateState) (items : List GateItem)
    → unique_gate (record gate { items = gate.items ++ items })
      ≡ add (unique_gate gate) (unique_items items)
unfolding add unique_items
unique_gate-append gate items =
    ap (λ l. record gate { items = l }) (unique_from-append [] gate.items items)

-- The gate of a log with one entry more is one round from the gate of the log.
pub build_gate-snoc :
    (log : List Event) (ev : Event) {g : GateState}
    → build_gate log ≡ ok g
    → (raw : GateState) × (g ≡ unique_gate raw)
      × ((next : GateState)
          → note_gate raw ev.kind ev ≡ ok next
          → build_gate (log ++ ev ∷ []) ≡ ok (unique_gate next))
unfolding build_gate
build_gate-snoc log ev built =
    let (raw, looped, same) = bind_inversion (gate_loop empty_gate log) _ built in
    (
      raw,
      cc,
      λ next noted.
          bind_ok (gate_loop empty_gate (log ++ ev ∷ [])) (λ gate. ok (unique_gate gate))
            (gate_loop-snoc empty_gate log ev
              ∙ bind_ok (gate_loop empty_gate log) (λ gate. note_gate gate ev.kind ev) looped
              ∙ noted),
    )

abbrev pub IsConstructed : GateItem → Type 0
IsConstructed item = construct_item item ≡ ok item

pub validate_all-dump_list :
    (items : List GateItem)
    → All IsConstructed items
    → validate_all (items_list (dump_list dump_item items)) ≡ ok items
unfolding validate_all
validate_all-dump_list [] good = refl
validate_all-dump_list (item ∷ items) (here, more) =
    rw (validate_item-dump_item item here, validate_all-dump_list items more)
