-- ===== src/Gate/Review/Same.antt =====
-- What waits for a person, as the review module and as the gate of the job read it from one log.
use rda_data_director.Prelude.{◌≡◌, refl, sym, ap, ◌∙◌, List, ok, bind_inversion, keep_if, All}
use rda_data_director.Contracts.Events.{Event}
use rda_data_director.Contracts.Gate.{GateItem, GateState, Resolution, unresolved}
use rda_data_director.Gate.Review.Folds.{on_drafts, MarksProposal, gate_loop-folds}
use rda_data_director.Gate.Review.Drafts.{IsNamedDraft, draft_gate, unresolved-draft_gate}
use rda_data_director.Job.Log.{
  raised_in, unique_items, log_items, gate_loop, empty_gate, unique_gate, build_gate,
}
use rda_data_director.Gate.Review.{review_resolutions, is_draft, review_gate, pending}

-- What waits for a person is one answer, whichever reader of the log gives it: the drafts that
-- `pending` names are the model outputs that the gate of the job has unresolved, in its order. The
-- log is one that `build_gate` reads, in which items stand in entries of the kind that proposes them
-- and a model's output has the identifier of a draft; decisions are any, on items of any kind.
pub pending-eq-unresolved :
    (log : List Event) (gate : GateState)
    → build_gate log ≡ ok gate
    → All MarksProposal log
    → All IsNamedDraft gate.items
    → pending log ≡ ok (keep_if is_draft (unresolved gate))
unfolding pending review_gate log_items build_gate
pending-eq-unresolved log gate built marks named =
    let (raw, looped, same) = bind_inversion (gate_loop empty_gate log) _ built in
    let (items, rs, raised, own, decided, kept) = gate_loop-folds empty_gate log raw marks looped in
    let same' : unique_gate raw ≡ gate = cc in
    let gate_items : gate.items ≡ unique_items items =
      ap (λ (g : GateState). g.items) (sym same') ∙ ap unique_items own in
    let gate_rs : on_drafts gate.resolutions ≡ rs =
      ap (λ (g : GateState). on_drafts g.resolutions) (sym same') ∙ kept in
    read_as items rs raised decided
    ∙ ap ok (rebuilt items rs gate_items gate_rs ∙ unresolved-draft_gate gate named)
  where
    read_as :
        (items : List GateItem) (rs : List Resolution)
        → raised_in log ≡ ok items
        → review_resolutions log ≡ ok rs
        → pending log
          ≡ ok (
              unresolved
                (record { items = keep_if is_draft (unique_items items); resolutions = rs }))
    read_as items rs a b = rw (a, b) refl

    rebuilt :
        (items : List GateItem) (rs : List Resolution)
        → gate.items ≡ unique_items items
        → on_drafts gate.resolutions ≡ rs
        → unresolved (record { items = keep_if is_draft (unique_items items); resolutions = rs })
          ≡ unresolved (draft_gate gate)
    rebuilt items rs a b = rw (← a, ← b) refl
