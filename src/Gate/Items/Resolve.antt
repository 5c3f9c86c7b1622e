-- ===== src/Gate/Items/Resolve.antt =====
-- When `Gate.resolve` records a decision, and what it leaves when it refuses one.
use rda_data_director.Prelude.{
  ℕ, ◌≡◌, ◌≢◌, ◌⊎◌, inl, inr, refl, String, true, false, Option, none, some, ok, err, Error, arith,
}
use rda_data_director.Contracts.Primitives.{Orcid}
use rda_data_director.Contracts.Gate.{
  ItemDecision, consulted, publish_as_is, acknowledge, llm_output, GateItem, Resolution, GateState,
}
use rda_data_director.Contracts.Gate.Open.{decided}
use rda_data_director.Gate.Items.{find_item, permits, no_reason, resolve, resolve_item}

-- The item is there and offers the decision; having read a model's draft does not decide it; and a
-- consultation, or a publication as it is, comes with a reason that is not blank.
pub record IsAdmissible (state : GateState) (item_id : String) (decision : ItemDecision)
    (reason : Option String) : Type 0 where
  pub item : GateItem
  pub found : find_item item_id state.items ≡ some item
  pub permitted : permits item.permitted_decisions decision ≡ true
  pub judged : decision ≡ acknowledge → item.kind ≢ llm_output
  pub reasoned : (decision ≡ consulted) ⊎ (decision ≡ publish_as_is) → no_reason reason ≡ false

module _ (state : GateState) (item_id : String) (decision : ItemDecision) (human : Orcid)
    (reason : Option String) (now : ℕ) where
  abbrev answer : Resolution
  answer = record {
    item_id = item_id;
    decision = decision;
    decided_by = human;
    reason = reason;
    decided_at = now;
  }

  -- An admissible decision is recorded: `Gate.resolve` answers the resolution, which names the person,
  -- and adds it behind those that are there.
  pub resolve-IsAdmissible :
      IsAdmissible state item_id decision reason
      → resolve state item_id decision human reason now ≡ (ok answer, decided state answer)
  unfolding resolve
  resolve-IsAdmissible a = ground arith

  IsAdmissible-resolve :
      (r : Resolution)
      → (resolve state item_id decision human reason now).0 ≡ ok r
      → IsAdmissible state item_id decision reason
  unfolding resolve
  IsAdmissible-resolve r h = admissible (find_item item_id state.items) refl h
    where
      admissible :
          (o : Option GateItem)
          → find_item item_id state.items ≡ o
          → (resolve_item state answer o).0 ≡ ok r
          → IsAdmissible state item_id decision reason
      admissible none e h = cc
      admissible (some item) e h = record {
        item = item;
        found = e;
        permitted = ground arith;
        judged = λ d k. ground arith;
        reasoned = λ d. elim d [ inl c ↦ ground arith | inr p ↦ ground arith ];
      }

  state-refused :
      (e : Error)
      → (resolve state item_id decision human reason now).0 ≡ err e
      → (resolve state item_id decision human reason now).1 ≡ state
  unfolding resolve
  state-refused e h = ground arith

  -- A decision that `Gate.resolve` answers for is admissible, and one that it raises for leaves the
  -- gate as it was.
  pub resolve_exact :
      ((r : Resolution)
        → (resolve state item_id decision human reason now).0 ≡ ok r
        → IsAdmissible state item_id decision reason)
      × ((e : Error)
          → (resolve state item_id decision human reason now).0 ≡ err e
          → (resolve state item_id decision human reason now).1 ≡ state)
  resolve_exact = (IsAdmissible-resolve, state-refused)
