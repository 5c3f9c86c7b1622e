-- ===== src/Contracts/Gate/Open.antt =====
-- How decisions change what is still open.
use rda_data_director.Prelude.{
  ◌≡◌, refl, sym, ap, ◌∙◌, String, true, false, ◌&&◌, ◌||◌, List, [], ◌∷◌, ◌++◌, Option, none, some,
  arith, eq_iff, str_eq, str_eq_refl, contains, any, contains-append, keep_if, map,
}
use rda_data_director.Contracts.Gate.{
  GateItem, GateState, Resolution, request_rerun, counts_as_validation, review_agent, resolved_ids,
  superseded_ids, is_open, unresolved, blocks_deposit,
}
use rda_data_director.Contracts.Gate.Supersede.{
  is_validated_draft, is_replaced, replaced_ids, superseded_ids-eq-replaced_ids,
}

pub blocks_deposit-of_nil :
    (state : GateState) → unresolved state ≡ [] → blocks_deposit state ≡ false
unfolding blocks_deposit
blocks_deposit-of_nil state h = rw (h, blocks_deposit) refl

abbrev pub decided : GateState → Resolution → GateState
decided state r = record state { resolutions = state.resolutions ++ r ∷ [] }

resolved_ids-rerun :
    (rs : List Resolution) (r : Resolution)
    → r.decision ≡ request_rerun
    → resolved_ids (rs ++ r ∷ []) ≡ resolved_ids rs
resolved_ids-rerun [] r h = rw h
resolved_ids-rerun (q ∷ rs) r h = ground (arith, resolved_ids-rerun rs r h)

pub resolved_ids-append :
    (rs : List Resolution) (r : Resolution) (s : String)
    → contains (resolved_ids (rs ++ r ∷ [])) s
      ≡ (contains (resolved_ids rs) s || (counts_as_validation r.decision && str_eq r.item_id s))
resolved_ids-append [] r s = ground arith
resolved_ids-append (q ∷ rs) r s = ground (arith, resolved_ids-append rs r s)

-- What is settled under fewer validations is settled under more.
module _ (few many : List String)
    (grows : (s : String) → contains few s ≡ true → contains many s ≡ true) where
  any-grows :
      (agent : String) (items : List GateItem)
      → any (is_validated_draft few agent) items ≡ true
      → any (is_validated_draft many agent) items ≡ true
  any-grows agent [] h = h
  any-grows agent (item ∷ items) h = ground (arith, any-grows agent items, grows item.item_id)

  is_replaced-grows :
      (later : List GateItem) (item : GateItem) (o : Option String)
      → is_replaced few later item o ≡ true
      → (contains many item.item_id || is_replaced many later item o) ≡ true
  is_replaced-grows later item none h = cc
  is_replaced-grows later item (some agent) h = ground (arith, any-grows agent later)

  settled-grows :
      (items : List GateItem) (s : String)
      → (contains few s || contains (replaced_ids few items) s) ≡ true
      → (contains many s || contains (replaced_ids many items) s) ≡ true
  unfolding replaced_ids
  settled-grows [] s h = ground (arith, grows s)
  settled-grows (item ∷ items) s h = ground (
    arith,
    settled-grows items s,
    is_replaced-grows items item (review_agent item),
    grows s,
    eq_iff item.item_id s,
  )

abbrev settled : GateState → List String
settled state = resolved_ids state.resolutions ++ superseded_ids state

settled-decided :
    (state : GateState) (r : Resolution) (s : String)
    → contains (settled state) s ≡ true
    → contains (settled (decided state r)) s ≡ true
settled-decided state r s h =
    let few = resolved_ids state.resolutions in
    let many = resolved_ids (state.resolutions ++ r ∷ []) in
    let h' : (contains few s || contains (replaced_ids few state.items) s) ≡ true =
      sym (contains-append few (replaced_ids few state.items) s)
      ∙ ap (λ l. contains (few ++ l) s) (sym (superseded_ids-eq-replaced_ids state))
      ∙ h in
    ap (λ l. contains (many ++ l) s) (superseded_ids-eq-replaced_ids (decided state r))
    ∙ contains-append many (replaced_ids many state.items) s
    ∙ settled-grows few many (λ t k. ground (arith, resolved_ids-append state.resolutions r t))
        state.items s h'

abbrev pub ids : List GateItem → List String
ids items = map (λ item. item.item_id) items

contains-keep_if :
    (before after : List String) (items : List GateItem) (s : String)
    → ((t : String) → contains before t ≡ true → contains after t ≡ true)
    → contains (ids (keep_if (is_open after) items)) s ≡ true
    → contains (ids (keep_if (is_open before) items)) s ≡ true
contains-keep_if before after [] s grows h = h
contains-keep_if before after (item ∷ items) s grows h =
    ground (arith, contains-keep_if before after items s grows, grows item.item_id)

-- Asking for another attempt opens and closes nothing: what is unresolved stays as it was, the
-- draft that the request is about included.
pub unresolved-rerun :
    (state : GateState) (r : Resolution)
    → r.decision ≡ request_rerun
    → unresolved (decided state r) ≡ unresolved state
unfolding unresolved
unresolved-rerun state r h =
    let same = resolved_ids-rerun state.resolutions r h in
    let same' : superseded_ids (decided state r) ≡ superseded_ids state =
      superseded_ids-eq-replaced_ids (decided state r)
      ∙ ap (λ l. replaced_ids l state.items) same
      ∙ sym (superseded_ids-eq-replaced_ids state) in
    ap (λ l. keep_if (is_open l) state.items)
      (ap (λ l. l ++ superseded_ids (decided state r)) same
        ∙ ap (λ l. resolved_ids state.resolutions ++ l) same')

pub closed-keep_if :
    (names : List String) (items : List GateItem) (s : String)
    → contains names s ≡ true
    → contains (ids (keep_if (is_open names) items)) s ≡ false
closed-keep_if names [] s h = refl
closed-keep_if names (item ∷ items) s h =
    ground (arith, closed-keep_if names items s, eq_iff item.item_id s)

-- A decision that validates closes its item, and no decision opens an item that was not open: what
-- is unresolved after it was unresolved before it.
pub unresolved-decided :
    (state : GateState) (r : Resolution)
    → (counts_as_validation r.decision ≡ true
        → contains (ids (unresolved (decided state r))) r.item_id ≡ false)
      × ((s : String)
          → contains (ids (unresolved (decided state r))) s ≡ true
          → contains (ids (unresolved state)) s ≡ true)
unfolding unresolved
unresolved-decided state r = (
  λ validates. closed-keep_if (settled (decided state r)) state.items r.item_id (
      contains-append (resolved_ids (state.resolutions ++ r ∷ []))
        (superseded_ids (decided state r)) r.item_id
      ∙ ground (arith, resolved_ids-append state.resolutions r r.item_id, str_eq_refl r.item_id)),
  λ s open'.
      contains-keep_if (settled state) (settled (decided state r)) state.items s
        (settled-decided state r) open',
)
