-- ===== src/Gate/Review/Folds.antt =====
-- The folds of the review module over a log against the loop of `build_gate`.
use mathlib.Core.List.{append_assoc, append-nil}
use rda_data_director.Prelude.{
  ◌≡◌, refl, sym, ap, ◌∙◌, Bool, true, false, Bool-cases, inl, inr, String, List, [], ◌∷◌, ◌++◌,
  Option, none, some, ok, bind_inversion, arith, keep_if, All, if◌then◌else◌,
}
use rda_data_director.Contracts.Primitives.{Orcid}
use rda_data_director.Contracts.Payload.{get-find, Json, text, get, find, a_text, text_or_null}
use rda_data_director.Contracts.Events.{Event, EventKind}
use rda_data_director.Contracts.Gate.{GateItem, ItemDecision, GateState, Resolution}
use rda_data_director.Job.Items.{decision_of}
use rda_data_director.Job.Log.{
  is_items_added, raised_by, raised_in, required, resolution_of, with_decision, note_gate,
  gate_loop,
}
use rda_data_director.Gate.Review.{
  resolution_by, is_review_id, on_review, decided_in, review_resolutions,
}

abbrev is_proposal : EventKind → Bool
is_proposal EventKind.redaction_proposed = true
is_proposal _ = false

-- An entry with gate items is of the kind that the writers of gate items give it.
abbrev pub MarksProposal : Event → Type 0
MarksProposal ev = is_items_added ev ≡ true → is_proposal ev.kind ≡ true

abbrev pub on_drafts : List Resolution → List Resolution
on_drafts rs = keep_if (λ r. is_review_id r.item_id) rs

on_drafts-snoc :
    (rs : List Resolution) (r : Resolution)
    → on_drafts (rs ++ r ∷ []) ≡ on_drafts rs ++ (if is_review_id r.item_id then r ∷ [] else [])
on_drafts-snoc [] r = ground arith
on_drafts-snoc (q ∷ rs) r = ground (arith, on_drafts-snoc rs r)

required-find : (o : Option Json) (v : Json) → required o ≡ ok v → o ≡ some v
required-find none v h = cc
required-find (some w) v h = cc

a_text-text : (v : Json) (s : String) → a_text v ≡ ok s → v ≡ text s
a_text-text (text t) s h = cc
a_text-text Json.null s h = cc
a_text-text (Json.bool b) s h = cc
a_text-text (Json.nat n) s h = cc
a_text-text (Json.neg n) s h = cc
a_text-text (Json.array vs) s h = cc
a_text-text (Json.object fs) s h = cc

pub resolution_by-parts :
    (item_id : String) (human : Orcid) (ev : Event) (d : Json) (decision : ItemDecision)
    (reason : Option String)
    → get "decision" ev.payload ≡ d
    → decision_of d ≡ ok decision
    → text_or_null (get "reason" ev.payload) ≡ ok reason
    → resolution_by item_id human ev
      ≡ ok (record {
        item_id = item_id;
        decision = decision;
        decided_by = human;
        reason = reason;
        decided_at = ev.occurred_at;
      })
unfolding resolution_by
resolution_by-parts item_id human ev d decision reason a b c = rw (a, b, c) refl

on_review-resolution_by :
    (item_id : String) (human : Orcid) (ev : Event) (r : Resolution)
    → get "item_id" ev.payload ≡ text item_id
    → r.item_id ≡ item_id
    → resolution_by item_id human ev ≡ ok r
    → on_review ev (some human) ≡ ok (if is_review_id r.item_id then r ∷ [] else [])
on_review-resolution_by item_id human ev r a b c =
    by_id ∙ ap (λ s. ok (if is_review_id s then r ∷ [] else [])) (sym b)
  where
    by_id : on_review ev (some human) ≡ ok (if is_review_id item_id then r ∷ [] else [])
    by_id = rw (a, c) refl

-- A decision that the gate takes from an entry is the one that the review module takes from it.
on_review-resolution_of :
    (ev : Event) (human : Orcid) (r : Resolution)
    → resolution_of ev human ≡ ok r
    → on_review ev (some human) ≡ ok (if is_review_id r.item_id then r ∷ [] else [])
unfolding resolution_of
on_review-resolution_of ev human r h =
    let (id, a, h1) = bind_inversion (required (find "item_id" ev.payload)) _ h in
    let (d, b, h2) = bind_inversion (required (find "decision" ev.payload)) _ h1 in
    let (decision, c, h3) = bind_inversion (decision_of d) _ h2 in
    let (item_id, e, h4) = bind_inversion (a_text id) _ h3 in
    let (reason, f, h5) = bind_inversion (text_or_null (get "reason" ev.payload)) _ h4 in
    on_review-resolution_by item_id human ev r
      (get-find "item_id" ev.payload id (required-find _ id a) ∙ a_text-text id item_id e) (cc)
      (resolution_by-parts item_id human ev d decision reason
          (get-find "decision" ev.payload d (required-find _ d b)) c f
        ∙ h5)

-- What one round of the gate's loop adds, as the two folds of the review module read it.
abbrev Added : GateState → EventKind → Event → GateState → Type 0
Added gate kind ev next =
    (items : List GateItem) × (rs : List Resolution) × (raised_by ev ≡ ok items)
    × (next.items ≡ gate.items ++ items)
    × (decided_in kind ev ≡ ok rs)
    × (on_drafts next.resolutions ≡ on_drafts gate.resolutions ++ rs)

no_items : (ev : Event) → (is_items_added ev ≡ true → false ≡ true) → raised_by ev ≡ ok []
no_items ev none_marked = elim (Bool-cases (is_items_added ev)) [
  | inl marked ↦ let h = none_marked marked in cc
  | inr other ↦ rw other refl
]

Added-nothing :
    (gate : GateState) (kind : EventKind) (ev : Event) (next : GateState)
    → (is_items_added ev ≡ true → false ≡ true)
    → decided_in kind ev ≡ ok []
    → ok gate ≡ ok next
    → Added gate kind ev next
Added-nothing gate kind ev next unmarked undecided same =
    let same' : gate ≡ next = cc in
    (
      [],
      [],
      no_items ev unmarked,
      ap (λ (g : GateState). g.items) (sym same') ∙ sym (append-nil gate.items),
      undecided,
      ap (λ (g : GateState). on_drafts g.resolutions) (sym same')
          ∙ sym (append-nil (on_drafts gate.resolutions)),
    )

Added-decision :
    (gate : GateState) (ev : Event) (next : GateState) (o : Option Orcid)
    → ev.human ≡ o
    → (is_items_added ev ≡ true → false ≡ true)
    → with_decision gate ev o ≡ ok next
    → Added gate EventKind.redaction_decided ev next
unfolding decided_in
Added-decision gate ev next none who unmarked h =
    Added-nothing gate EventKind.redaction_decided ev next unmarked
      (unfold decided_in in rw who refl) h
Added-decision gate ev next (some human) who unmarked h =
    let (r, made, h') = bind_inversion (resolution_of ev human) _ h in
    let grown : record gate { resolutions = gate.resolutions ++ r ∷ [] } ≡ next = cc in
    (
      [],
      if is_review_id r.item_id then r ∷ [] else [],
      no_items ev unmarked,
      ap (λ (g : GateState). g.items) (sym grown) ∙ sym (append-nil gate.items),
      ap (λ o. on_review ev o) who ∙ on_review-resolution_of ev human r made,
      ap (λ (g : GateState). on_drafts g.resolutions) (sym grown)
          ∙ on_drafts-snoc gate.resolutions r,
    )

note_gate-Added :
    (gate : GateState) (kind : EventKind) (ev : Event) (next : GateState)
    → (is_items_added ev ≡ true → is_proposal kind ≡ true)
    → note_gate gate kind ev ≡ ok next
    → Added gate kind ev next
unfolding note_gate decided_in
note_gate-Added gate EventKind.redaction_proposed ev next marks h =
    let (items, found, h') = bind_inversion (raised_by ev) _ h in
    let grown : record gate { items = gate.items ++ items } ≡ next = cc in
    (
      items,
      [],
      found,
      ap (λ (g : GateState). g.items) (sym grown),
      refl,
      ap (λ (g : GateState). on_drafts g.resolutions) (sym grown)
          ∙ sym (append-nil (on_drafts gate.resolutions)),
    )
note_gate-Added gate EventKind.redaction_decided ev next marks h =
    Added-decision gate ev next ev.human refl marks h
note_gate-Added gate kind ev next marks h = Added-nothing gate kind ev next marks refl h

-- The whole loop against the two folds.
pub gate_loop-folds :
    (gate : GateState) (log : List Event) (raw : GateState)
    → All MarksProposal log
    → gate_loop gate log ≡ ok raw
    → (items : List GateItem) × (rs : List Resolution) × (raised_in log ≡ ok items)
      × (raw.items ≡ gate.items ++ items)
      × (review_resolutions log ≡ ok rs)
      × (on_drafts raw.resolutions ≡ on_drafts gate.resolutions ++ rs)
unfolding gate_loop raised_in review_resolutions
gate_loop-folds gate [] raw marks h =
    let same : gate ≡ raw = cc in
    (
      [],
      [],
      refl,
      ap (λ (g : GateState). g.items) (sym same) ∙ sym (append-nil gate.items),
      refl,
      ap (λ (g : GateState). on_drafts g.resolutions) (sym same)
          ∙ sym (append-nil (on_drafts gate.resolutions)),
    )
gate_loop-folds gate (ev ∷ log) raw (here, more) h =
    let (next, noted, h') = bind_inversion (note_gate gate ev.kind ev) _ h in
    let (items, rs, a, b, c, d) = note_gate-Added gate ev.kind ev next here noted in
    let (items', rs', a', b', c', d') = gate_loop-folds next log raw more h' in
    (
      items ++ items',
      rs ++ rs',
      rw (a, a') refl,
      b' ∙ ap (λ l. l ++ items') b ∙ append_assoc gate.items items items',
      rw (c, c') refl,
      d' ∙ ap (λ l. l ++ rs') d ∙ append_assoc (on_drafts gate.resolutions) rs rs',
    )
