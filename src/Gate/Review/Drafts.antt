-- ===== src/Gate/Review/Drafts.antt =====
-- A gate restricted to the drafts of models: what is open in it is what is open in the whole gate.
use rda_data_director.Prelude.{
  ◌≡◌, refl, sym, ap, ◌∙◌, subst, true, false, ◌||◌, Bool-cases, inl, inr, String, List, [], ◌∷◌,
  ◌++◌, Option, none, some, arith, eq_iff, contains, contains-append, any, keep_if, str_eq, All,
}
use rda_data_director.Contracts.Gate.{
  GateItem, GateItemKind, llm_output, GateState, Resolution, review_agent, resolved_ids,
  superseded_ids, is_open, unresolved, agent_of_kind,
}
use rda_data_director.Contracts.Gate.Supersede.{
  is_validated_draft, is_replaced, replaced_ids, superseded_ids-eq-replaced_ids,
}
use rda_data_director.Gate.Items.{is_model_output}
use rda_data_director.Gate.Review.Folds.{on_drafts}
use rda_data_director.Gate.Review.{is_review_id, is_draft}

-- An item about a model's output carries the identifier that `review_item` gives it.
abbrev pub IsNamedDraft : GateItem → Type 0
IsNamedDraft item = is_draft item ≡ true → is_review_id item.item_id ≡ true

review_agent-of_other : (item : GateItem) → is_draft item ≡ false → review_agent item ≡ none
unfolding review_agent
review_agent-of_other item h = by_kind item.kind h
  where
    by_kind :
        (kind : GateItemKind)
        → is_model_output kind ≡ false
        → agent_of_kind kind item.item_id ≡ none
    by_kind llm_output h = cc
    by_kind kind h = refl

any-drafts :
    (names : List String) (agent : String) (items : List GateItem)
    → any (is_validated_draft names agent) (keep_if is_draft items)
      ≡ any (is_validated_draft names agent) items
any-drafts names agent [] = refl
any-drafts names agent (item ∷ items) =
    ground (arith, any-drafts names agent items, review_agent-of_other item)

is_replaced-drafts :
    (names : List String) (later : List GateItem) (item : GateItem) (o : Option String)
    → is_replaced names (keep_if is_draft later) item o ≡ is_replaced names later item o
is_replaced-drafts names later item none = refl
is_replaced-drafts names later item (some agent) = rw (any-drafts names agent later) refl

keep_if-kept :
    (item : GateItem) (items : List GateItem)
    → is_draft item ≡ true
    → keep_if is_draft (item ∷ items) ≡ item ∷ keep_if is_draft items
keep_if-kept item items h = ground (arith, h)

keep_if-left_out :
    (item : GateItem) (items : List GateItem)
    → is_draft item ≡ false
    → keep_if is_draft (item ∷ items) ≡ keep_if is_draft items
keep_if-left_out item items h = ground (arith, h)

replaced_ids-of_other :
    (names : List String) (item : GateItem) (items : List GateItem)
    → review_agent item ≡ none
    → replaced_ids names (item ∷ items) ≡ replaced_ids names items
unfolding replaced_ids
replaced_ids-of_other names item items h = ground (arith, h)

replaced_ids-cons :
    (names : List String) (item : GateItem) (items : List GateItem)
    → replaced_ids names (keep_if is_draft items) ≡ replaced_ids names items
    → replaced_ids names (item ∷ keep_if is_draft items) ≡ replaced_ids names (item ∷ items)
unfolding replaced_ids
replaced_ids-cons names item items h =
    ground (arith, h, is_replaced-drafts names items item (review_agent item))

-- Only drafts replace and are replaced.
replaced_ids-drafts :
    (names : List String) (items : List GateItem)
    → replaced_ids names (keep_if is_draft items) ≡ replaced_ids names items
unfolding replaced_ids
replaced_ids-drafts names [] = refl
replaced_ids-drafts names (item ∷ items) = elim (Bool-cases (is_draft item)) [
  | inl draft ↦
      ap (replaced_ids names) (keep_if-kept item items draft)
      ∙ replaced_ids-cons names item items (replaced_ids-drafts names items)
  | inr other ↦
      ap (replaced_ids names) (keep_if-left_out item items other)
      ∙ replaced_ids-drafts names items
      ∙ sym (replaced_ids-of_other names item items (review_agent-of_other item other))
]

-- What is replaced depends on the names of the items alone.
module _ (few many : List String) where
  abbrev Agree : GateItem → Type 0
  Agree item = contains few item.item_id ≡ contains many item.item_id

  any-Agree :
      (agent : String) (items : List GateItem)
      → All Agree items
      → any (is_validated_draft few agent) items ≡ any (is_validated_draft many agent) items
  any-Agree agent [] h = refl
  any-Agree agent (item ∷ items) (here, more) = ground (arith, any-Agree agent items more, here)

  is_replaced-Agree :
      (later : List GateItem) (item : GateItem) (o : Option String)
      → Agree item
      → All Agree later
      → is_replaced few later item o ≡ is_replaced many later item o
  is_replaced-Agree later item none here more = refl
  is_replaced-Agree later item (some agent) here more = ground (arith, any-Agree agent later more)

  replaced_ids-Agree :
      (items : List GateItem) → All Agree items → replaced_ids few items ≡ replaced_ids many items
  unfolding replaced_ids
  replaced_ids-Agree [] h = refl
  replaced_ids-Agree (item ∷ items) (here, more) = ground (
    arith,
    replaced_ids-Agree items more,
    is_replaced-Agree items item (review_agent item) here more,
  )

  -- A property of the drafts alone.
  drafts-Agree :
      (items : List GateItem)
      → All IsNamedDraft items
      → ((s : String) → is_review_id s ≡ true → contains few s ≡ contains many s)
      → All Agree (keep_if is_draft items)
  drafts-Agree [] named same = tt
  drafts-Agree (item ∷ items) (here, more) same = elim (Bool-cases (is_draft item)) [
    | inl draft ↦
        subst (All Agree) (sym (keep_if-kept item items draft))
          (same item.item_id (here draft), drafts-Agree items more same)
    | inr other ↦
        subst (All Agree) (sym (keep_if-left_out item items other)) (drafts-Agree items more same)
  ]

  keep_if-drafts :
      (items : List GateItem)
      → All Agree (keep_if is_draft items)
      → keep_if (is_open few) (keep_if is_draft items)
        ≡ keep_if is_draft (keep_if (is_open many) items)
  keep_if-drafts [] h = refl
  keep_if-drafts (item ∷ items) h = elim (Bool-cases (is_draft item)) [
    | inl draft ↦
        let (here, more) = subst (All Agree) (keep_if-kept item items draft) h in
        ground (arith, keep_if-drafts items more, here)
    | inr other ↦
        let more = subst (All Agree) (keep_if-left_out item items other) h in
        ground (arith, keep_if-drafts items more)
  ]

resolved_ids-on_drafts :
    (rs : List Resolution) (s : String)
    → is_review_id s ≡ true
    → contains (resolved_ids (on_drafts rs)) s ≡ contains (resolved_ids rs) s
resolved_ids-on_drafts [] s h = refl
resolved_ids-on_drafts (r ∷ rs) s h = elim (Bool-cases (str_eq r.item_id s)) [
  | inl same ↦
      let start : is_review_id r.item_id ≡ true =
        ap is_review_id ((eq_iff r.item_id s).0 same) ∙ h in
      ground (arith, resolved_ids-on_drafts rs s h, start)
  | inr other ↦ ground (arith, resolved_ids-on_drafts rs s h)
]

-- A gate of the drafts alone, with the decisions on them.
abbrev pub draft_gate : GateState → GateState
draft_gate gate = record {
  items = keep_if is_draft gate.items;
  resolutions = on_drafts gate.resolutions;
}

abbrev settled : GateState → List String
settled gate = resolved_ids gate.resolutions ++ superseded_ids gate

settled-draft_gate :
    (gate : GateState) (s : String)
    → All IsNamedDraft gate.items
    → is_review_id s ≡ true
    → contains (settled (draft_gate gate)) s ≡ contains (settled gate) s
settled-draft_gate gate s named h =
    let few = resolved_ids (on_drafts gate.resolutions) in
    let many = resolved_ids gate.resolutions in
    let replaced : superseded_ids (draft_gate gate) ≡ replaced_ids many gate.items =
      superseded_ids-eq-replaced_ids (draft_gate gate)
      ∙ replaced_ids-Agree few many (keep_if is_draft gate.items)
          (drafts-Agree few many gate.items named (resolved_ids-on_drafts gate.resolutions))
      ∙ replaced_ids-drafts many gate.items in
    ap (λ l. contains (few ++ l) s) (replaced ∙ sym (superseded_ids-eq-replaced_ids gate))
    ∙ contains-append few (superseded_ids gate) s
    ∙ ap (λ b. b || contains (superseded_ids gate) s) (resolved_ids-on_drafts gate.resolutions s h)
    ∙ sym (contains-append many (superseded_ids gate) s)

pub unresolved-draft_gate :
    (gate : GateState)
    → All IsNamedDraft gate.items
    → unresolved (draft_gate gate) ≡ keep_if is_draft (unresolved gate)
unfolding unresolved
unresolved-draft_gate gate named =
    keep_if-drafts (settled (draft_gate gate)) (settled gate) gate.items (
      drafts-Agree (settled (draft_gate gate)) (settled gate) gate.items named
        (λ s h. settled-draft_gate gate s named h))
