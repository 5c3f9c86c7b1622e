-- ===== src/Gate/Items/Closing.antt =====
-- A gate can always be closed by decisions that its items offer.
use rda_data_director.Prelude.{
  ℕ, ◌≡◌, ◌≢◌, refl, ap, ◌∙◌, String, Bool, true, false, ◌||◌, List, [], ◌∷◌, ◌++◌, Option, some,
  Result, ok, err, arith, All, contains, contains-append, keep_if, str_eq, str_eq_refl,
}
use rda_data_director.Contracts.Primitives.{Orcid, is_blank}
use rda_data_director.Contracts.Gate.{
  ItemDecision, acknowledge, llm_output, counts_as_validation, GateItem, Resolution, GateState,
  resolved_ids, superseded_ids, is_open, unresolved, blocks_deposit,
}
use rda_data_director.Contracts.Gate.Open.{decided, ids, blocks_deposit-of_nil, resolved_ids-append}
use rda_data_director.Gate.Items.{find_item, permits, no_reason, resolve}
use rda_data_director.Gate.Items.Resolve.{resolve-IsAdmissible}

-- An item offers a decision that stands behind what it is about.
pub record Offers (item : GateItem) : Type 0 where
  pub decision : ItemDecision
  pub permitted : permits item.permitted_decisions decision ≡ true
  pub validates : counts_as_validation decision ≡ true
  pub judged : decision ≡ acknowledge → item.kind ≢ llm_output

-- A decision on an item, as a person gives it.
abbrev pub Given : Type 0
Given = String × ItemDecision × Option String

module _ (human : Orcid) (now : ℕ) where
  abbrev pub go_on :
      (GateState → Result GateState) → Result Resolution × GateState → Result GateState
  go_on more (err e, state) = err e
  go_on more (ok r, state) = more state

  -- Decisions in turn, each through `Gate.resolve`, up to one that it refuses.
  pub decide_all : GateState → List Given → Result GateState
  decide_all state [] = ok state
  decide_all state ((item_id, decision, reason) ∷ more) =
      go_on (λ next. decide_all next more) (resolve state item_id decision human reason now)

  found-Offers :
      (items : List GateItem) (id : String)
      → All Offers items
      → contains (ids items) id ≡ true
      → (item : GateItem) × (find_item id items ≡ some item) × Offers item
  found-Offers [] id all' h = cc
  found-Offers (item ∷ items) id (offers, more) h =
      by_name (str_eq item.item_id id) refl (λ other. found-Offers items id more (ground arith))
    where
      by_name :
          (b : Bool)
          → str_eq item.item_id id ≡ b
          → (b ≡ false → (i : GateItem) × (find_item id items ≡ some i) × Offers i)
          → (i : GateItem) × (find_item id (item ∷ items) ≡ some i) × Offers i
      by_name true e later = (item, ground arith, offers)
      by_name false e later = let (i, at, o) = later refl in (i, ground arith, o)

  abbrev answer_to : String → ItemDecision → Resolution
  answer_to id decision = record {
    item_id = id;
    decision = decision;
    decided_by = human;
    reason = some "decided";
    decided_at = now;
  }

  has_words : no_reason (some "decided") ≡ false
  unfolding is_blank
  has_words = refl

  -- What a run of decisions leaves: the items as they were, and the given names resolved.
  record Closes (state : GateState) (names : List String) : Type 0 where
    given : List Given
    final : GateState
    runs : decide_all state given ≡ ok final
    kept : final.items ≡ state.items
    resolves :
        (s : String)
        → (contains names s || contains (resolved_ids state.resolutions) s) ≡ true
        → contains (resolved_ids final.resolutions) s ≡ true

  closing :
      (todo : List GateItem) (state : GateState)
      → All Offers state.items
      → ((s : String) → contains (ids todo) s ≡ true → contains (ids state.items) s ≡ true)
      → Closes state (ids todo)
  unfolding decide_all
  closing [] state all' there = record {
    given = [];
    final = state;
    runs = refl;
    kept = refl;
    resolves = λ s h. h;
  }
  closing (item ∷ todo) state all' there =
      let (i, at, o) =
        found-Offers state.items item.item_id all'
          (there item.item_id (ground (arith, str_eq_refl item.item_id))) in
      let r = answer_to item.item_id o.decision in
      let answered =
        resolve-IsAdmissible state item.item_id o.decision human (some "decided") now (record {
          item = i;
          found = at;
          permitted = o.permitted;
          judged = o.judged;
          reasoned = λ _. has_words;
        }) in
      let rest =
        closing todo (decided state r) all'
          (λ s h. there s (ground (arith, str_eq_refl item.item_id))) in
      record {
        given = (item.item_id, o.decision, some "decided") ∷ rest.given;
        final = rest.final;
        runs = ap (go_on (λ next. decide_all next rest.given)) answered ∙ rest.runs;
        kept = rest.kept;
        resolves = λ s h.
            rest.resolves s
              (ground (arith, resolved_ids-append state.resolutions r s, o.validates));
      }

  none-open :
      (names : List String) (items : List GateItem)
      → ((s : String) → contains (ids items) s ≡ true → contains names s ≡ true)
      → keep_if (is_open names) items ≡ []
  none-open names [] all' = refl
  none-open names (item ∷ items) all' = ground (
    arith,
    all' item.item_id (ground (arith, str_eq_refl item.item_id)),
    none-open names items (λ s h. all' s (ground arith)),
  )

  -- Whatever state a gate is in, if each of its items offers a decision that validates (having read
  -- it is none for a model's draft), then there are decisions, each permitted and accepted by
  -- `Gate.resolve`, after which the deposit is no longer blocked.
  pub gate_can_close :
      (state : GateState)
      → All Offers state.items
      → (given : List Given) × (final : GateState) × (decide_all state given ≡ ok final)
        × (blocks_deposit final ≡ false)
  unfolding unresolved
  gate_can_close state all' =
      let c = closing state.items state all' (λ s h. h) in
      let all_resolved : (s : String)
          → contains (ids c.final.items) s ≡ true
          → contains (resolved_ids c.final.resolutions ++ superseded_ids c.final) s ≡ true =
        λ s h.
          contains-append (resolved_ids c.final.resolutions) (superseded_ids c.final) s
          ∙ ground (arith, c.resolves s, ap (λ (l : List GateItem). contains (ids l) s) c.kept) in
      (
        c.given,
        c.final,
        c.runs,
        blocks_deposit-of_nil c.final (
            none-open (resolved_ids c.final.resolutions ++ superseded_ids c.final) c.final.items
              all_resolved),
      )
