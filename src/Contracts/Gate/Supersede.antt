-- ===== src/Contracts/Gate/Supersede.antt =====
-- `superseded_ids` against an independent description: a draft is superseded when it is not
-- validated and a later draft of the same agent is.
use mathlib.Core.List.{append_assoc}
use native.Mathlib.Nat.{add-zero, add-suc, suc-add}
use rda_data_director.Prelude.{
  ℕ, suc, ◌+◌, ◌≤◌, ◌<◌, ◌≡◌, refl, ◌∙◌, String, Bool, true, false, not, ◌&&◌, ◌||◌, List, [], ◌∷◌,
  ◌++◌, Option, none, some, arith, eq_iff, str_eq, ltb, length, length-append, subst, contains, any,
}
use rda_data_director.Contracts.Gate.{
  GateItem, GateState, review_agent, resolved_ids, Latest, latest_of, raise_latest, note_validated,
  latest_from, before_latest, is_superseded, superseded_from, superseded_ids,
}

abbrev drafted_by : String → Option String → Bool
drafted_by agent none = false
drafted_by agent (some a) = str_eq a agent

-- A draft of `agent` that a person has validated.
abbrev pub is_validated_draft : List String → String → GateItem → Bool
is_validated_draft resolved agent item =
    drafted_by agent (review_agent item) && contains resolved item.item_id

abbrev pub is_replaced : List String → List GateItem → GateItem → Option String → Bool
is_replaced resolved later item none = false
is_replaced resolved later item (some agent) =
    not (contains resolved item.item_id) && any (is_validated_draft resolved agent) later

-- The drafts that a later, validated draft of their agent replaces.
unfoldable pub replaced_ids : List String → List GateItem → List String
replaced_ids resolved [] = []
replaced_ids resolved (item ∷ later) =
    let rest = replaced_ids resolved later in
    elim (is_replaced resolved later item (review_agent item)) [
      | true ↦ item.item_id ∷ rest
      | false ↦ rest
    ]

-- Some validated draft of `agent` stands behind position `p`; the list starts at position `k`.
validated_after : List String → String → ℕ → ℕ → List GateItem → Bool
validated_after resolved agent p k [] = false
validated_after resolved agent p k (item ∷ items) =
    (is_validated_draft resolved agent item && ltb p k)
    || validated_after resolved agent p (suc k) items

or_assoc : (a b c : Bool) → ((a || b) || c) ≡ (a || (b || c))
or_assoc true b c = refl
or_assoc false b c = refl

before_latest-raise_latest :
    (p n : ℕ) (a agent : String) (l : Latest)
    → before_latest p (latest_of (raise_latest l a n) agent)
      ≡ (before_latest p (latest_of l agent) || (str_eq a agent && ltb p n))
before_latest-raise_latest p n a agent [] = ground arith
before_latest-raise_latest p n a agent ((b, m) ∷ l) =
    ground
      (arith, eq_iff a agent, eq_iff b agent, eq_iff b a, before_latest-raise_latest p n a agent l)

before_latest-note_validated :
    (resolved : List String) (p k : ℕ) (agent : String) (l : Latest) (item : GateItem)
    (o : Option String)
    → before_latest p (latest_of (note_validated resolved l k item o) agent) ≡ (
        before_latest p (latest_of l agent)
        || ((drafted_by agent o && contains resolved item.item_id) && ltb p k))
before_latest-note_validated resolved p k agent l item none = ground arith
before_latest-note_validated resolved p k agent l item (some a) =
    ground (arith, before_latest-raise_latest p k a agent l)

before_latest-latest_from :
    (resolved : List String) (p k : ℕ) (agent : String) (l : Latest) (items : List GateItem)
    → before_latest p (latest_of (latest_from resolved l k items) agent)
      ≡ (before_latest p (latest_of l agent) || validated_after resolved agent p k items)
unfolding latest_from validated_after
before_latest-latest_from resolved p k agent l [] = ground arith
before_latest-latest_from resolved p k agent l (item ∷ items) =
    before_latest-latest_from resolved p (suc k) agent
      (note_validated resolved l k item (review_agent item)) items
    ∙ rw (before_latest-note_validated resolved p k agent l item (review_agent item))
        (or_assoc (before_latest p (latest_of l agent)) _ _)

validated_after-append :
    (resolved : List String) (agent : String) (p k : ℕ) (front back : List GateItem)
    → k + length front ≤ suc p
    → validated_after resolved agent p k (front ++ back)
      ≡ validated_after resolved agent p (k + length front) back
unfolding validated_after
validated_after-append resolved agent p k [] back h = rw add-zero
validated_after-append resolved agent p k (item ∷ front) back h =
    passed (is_validated_draft resolved agent item) _
    ∙ rw (add-suc, ← suc-add)
        (validated_after-append resolved agent p (suc k) front back (omega arith))
  where
    passed : (b rest : Bool) → ((b && ltb p k) || rest) ≡ rest
    passed b rest = ground arith

validated_after-later :
    (resolved : List String) (agent : String) (p k : ℕ) (items : List GateItem)
    → p < k
    → validated_after resolved agent p k items ≡ any (is_validated_draft resolved agent) items
unfolding validated_after
validated_after-later resolved agent p k [] h = refl
validated_after-later resolved agent p k (item ∷ items) h =
    ground (arith, validated_after-later resolved agent p (suc k) items)

-- What the second loop asks at the position of an item is whether a later draft is validated.
position_of_draft :
    (resolved : List String) (agent : String) (front : List GateItem) (item : GateItem)
    (later : List GateItem)
    → before_latest
        (length front)
        (latest_of (latest_from resolved [] 0 (front ++ item ∷ later)) agent)
      ≡ any (is_validated_draft resolved agent) later
position_of_draft resolved agent front item later =
    before_latest-latest_from resolved (length front) 0 agent [] (front ++ item ∷ later)
    ∙ validated_after-append resolved agent (length front) 0 front (item ∷ later) (omega arith)
    ∙ at_item
  where
    at_item :
        validated_after resolved agent (length front) (0 + length front) (item ∷ later)
        ≡ any (is_validated_draft resolved agent) later
    at_item =
        unfold validated_after in
        ground (
          arith,
          validated_after-later resolved agent (length front) (suc (0 + length front)) later
              (omega arith),
        )

is_superseded-eq :
    (resolved : List String) (front : List GateItem) (item : GateItem) (later : List GateItem)
    (o : Option String)
    → is_superseded resolved
        (latest_from resolved [] 0 (front ++ item ∷ later))
        (length front)
        item
        o
      ≡ is_replaced resolved later item o
is_superseded-eq resolved front item later none = refl
is_superseded-eq resolved front item later (some agent) =
    rw (position_of_draft resolved agent front item later)

superseded_from-eq :
    (resolved : List String) (front items : List GateItem)
    → superseded_from resolved (latest_from resolved [] 0 (front ++ items)) (length front) items
      ≡ replaced_ids resolved items
unfolding superseded_from replaced_ids
superseded_from-eq resolved front [] = refl
superseded_from-eq resolved front (item ∷ later) =
    let ih = superseded_from-eq resolved (front ++ item ∷ []) later in
    let moved =
      subst
        (λ l.
          superseded_from resolved (latest_from resolved [] 0 l) (length (front ++ item ∷ [])) later
          ≡ replaced_ids resolved later)
        (append_assoc front (item ∷ []) later) ih in
    let longer : length (front ++ item ∷ []) ≡ suc (length front) =
      omega (arith, length-append front (item ∷ [])) in
    let rest =
      subst
        (λ n.
          superseded_from resolved (latest_from resolved [] 0 (front ++ item ∷ later)) n later
          ≡ replaced_ids resolved later)
        longer moved in
    ground (arith, is_superseded-eq resolved front item later (review_agent item), rest)

-- `superseded_ids` names exactly the drafts that no person has validated and that a later draft of
-- the same agent, validated by a person, replaces.
pub superseded_ids-eq-replaced_ids :
    (state : GateState)
    → superseded_ids state ≡ replaced_ids (resolved_ids state.resolutions) state.items
unfolding superseded_ids
superseded_ids-eq-replaced_ids state =
    superseded_from-eq (resolved_ids state.resolutions) [] state.items
