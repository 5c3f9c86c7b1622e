-- ===== src/Gate/Review/Named.antt =====
-- The identifier of a review item, read back.
use Prim.Native.String.{String, ◌++◌ as ◌<>◌}
use Prim.Native.Char.{Char, char, code}
use text.Mathlib.TextLemmas.{nil-append, cons-append, append_assoc}
use text.Mathlib.TextPositions.{starts_with-append}
use rda_data_director.Prelude.{
  ℕ, ◌≡◌, refl, sym, ap, ◌∙◌, subst, Bool, true, false, not, List, [], ◌∷◌, Option, none, some,
  Result, ok, err, value_error, ◌==◌, any, codes, split_on, add_char, str_eq, Bool-cases, inl, inr,
  arith, bind_inversion, starts_with, if◌then◌else◌,
}
use rda_data_director.Contracts.Payload.{Json, truthy, get}
use rda_data_director.Contracts.Gate.{
  GateItem, construct_item, review_agent_id, agent_segment, non_empty,
}
use rda_data_director.Gate.Review.Claim.{
  item_id_for, agent_name, all_texts, LlmOutput, Outcome, review_item, detail_of, full_item,
  offered, drafted, claimed_review,
}
use rda_data_director.Gate.Review.{is_review_id, is_draft}

-- A text without a character.
abbrev pub lacks : ℕ → String → Bool
lacks mark s = not (any (λ c. c == mark) (codes s))

split_on-mark : (rest : String) → split_on b':' (":" <> rest) ≡ "" ∷ split_on b':' rest
split_on-mark rest =
    ap (split_on b':') (cons-append (char b':' tt) String.[] rest)
    ∙ ap (λ s. String.[] ∷ split_on b':' s) (nil-append rest)

split_on-other :
    (c : Char) (s : String)
    → (code c == b':') ≡ false
    → split_on b':' (String.◌∷◌ c s) ≡ add_char (λ part. String.◌∷◌ c part) (split_on b':' s)
split_on-other c s h = rw (h, split_on) refl

lacks-head :
    (c : Char) (s : String)
    → lacks b':' (String.◌∷◌ c s) ≡ true
    → ((code c == b':') ≡ false) × (lacks b':' s ≡ true)
lacks-head c s h = (ground arith, ground arith)

split_on-append :
    (s rest : String)
    → lacks b':' s ≡ true
    → split_on b':' (s <> (":" <> rest)) ≡ s ∷ split_on b':' rest
split_on-append String.[] rest h =
    ap (split_on b':') (nil-append (":" <> rest)) ∙ split_on-mark rest
split_on-append (String.◌∷◌ c s) rest h =
    let (here, more) = lacks-head c s h in
    ap (split_on b':') (cons-append c s (":" <> rest))
    ∙ split_on-other c (s <> (":" <> rest)) here
    ∙ ap (add_char (λ part. String.◌∷◌ c part)) (split_on-append s rest more)

-- A text that is not empty.
abbrev pub is_something : String → Bool
is_something s = not (str_eq s "")

abbrev pub IsAgentName : String → Type 0
IsAgentName name = (lacks b':' name ≡ true) × (is_something name ≡ true)

split_on-some :
    (s : String) → (first : String) × (more : List String) × (split_on b':' s ≡ first ∷ more)
split_on-some String.[] = ("", [], refl)
split_on-some (String.◌∷◌ c s) = elim (Bool-cases (code c == b':')) [
  | inl mark ↦ ("", split_on b':' s, rw (mark, split_on) refl)
  | inr other ↦
      let (first, more, same) = split_on-some s in
      (
        String.◌∷◌ c first,
        more,
        split_on-other c s other ∙ ap (add_char (λ part. String.◌∷◌ c part)) same,
      )
]

pub review_agent_id-item_id_for :
    (name digest : String)
    → IsAgentName name
    → review_agent_id (item_id_for name digest) ≡ some name
unfolding review_agent_id item_id_for
review_agent_id-item_id_for name digest (plain, something) =
    let (first, more, same) = split_on-some digest in
    ap agent_segment (
      split_on-append "llm-output" (name <> (":" <> digest)) refl
      ∙ ap (λ l. "llm-output" ∷ l) (split_on-append name digest plain ∙ ap (λ l. name ∷ l) same))
    ∙ by_text name something
  where
    by_text : (s : String) → is_something s ≡ true → non_empty s ≡ some s
    by_text String.[] h = cc
    by_text (String.◌∷◌ c s) h = refl

pub is_review_id-item_id_for :
    (name digest : String) → is_review_id (item_id_for name digest) ≡ true
unfolding item_id_for
is_review_id-item_id_for name digest =
    ap (λ s. starts_with s "llm-output:")
      (sym (append_assoc "llm-output" ":" (name <> (":" <> digest))))
    ∙ starts_with-append "llm-output:" (name <> (":" <> digest))

construct_item-offered :
    (item : GateItem) (editable : Bool)
    → item.permitted_decisions ≡ offered editable
    → construct_item item ≡ ok item
unfolding construct_item
construct_item-offered item true h =
    ap (λ ds. elim ds [ [] ↦ err value_error | d ∷ more ↦ ok item ]) h
construct_item-offered item false h =
    ap (λ ds. elim ds [ [] ↦ err value_error | d ∷ more ↦ ok item ]) h

-- What a review item is, whatever the model wrote.
pub review_item-Named :
    (payload_digest : Json → String) (agent label : String) (payloads : Json) (editable : Bool)
    (edit_note : String) (detail : List Json) (item : GateItem)
    → review_item payload_digest agent label payloads editable edit_note detail ≡ ok item
    → (item.item_id ≡ item_id_for (agent_name agent) (payload_digest payloads))
      × (is_draft item ≡ true)
      × (construct_item item ≡ ok item)
      × (item.permitted_decisions ≡ offered editable)
unfolding review_item construct_item
review_item-Named payload_digest agent label payloads true edit_note detail item h =
    let (texts, a, made) = bind_inversion (all_texts detail) _ h in
    (cc, cc, construct_item-offered item true (cc), cc)
review_item-Named payload_digest agent label payloads false edit_note detail item h =
    let (texts, a, made) = bind_inversion (all_texts detail) _ h in
    (cc, cc, construct_item-offered item false (cc), cc)

item_of-some :
    (test : Bool) (made : Result (Option GateItem)) (item : GateItem)
    → (if test then made else ok none) ≡ ok (some item)
    → (test ≡ true) × (made ≡ ok (some item))
item_of-some true made item h = (refl, h)
item_of-some false made item h = cc

-- An item that `claimed_review` raises is a review item about what the agent drafted.
pub claimed_review-Named :
    (payload_digest : Json → String) (agent : String) (claim : LlmOutput) (outcome : Outcome)
    (item : GateItem)
    → claimed_review payload_digest agent (some claim) outcome ≡ ok (some item)
    → (payloads : Json) × (drafted claim outcome ≡ ok payloads)
      × (truthy payloads ≡ true)
      × (item.item_id ≡ item_id_for (agent_name agent) (payload_digest payloads))
      × (is_draft item ≡ true)
      × (construct_item item ≡ ok item)
      × (item.permitted_decisions ≡ offered claim.editable)
unfolding claimed_review
claimed_review-Named payload_digest agent claim outcome item h =
    let (payloads, a, raised) = bind_inversion (drafted claim outcome) _ h in
    let (full, built) =
      item_of-some (truthy payloads) (full_item payload_digest agent claim outcome.review payloads)
        item raised in
    let (detail, b, built') = bind_inversion (detail_of (get "detail" outcome.review)) _ built in
    let (made, c, same) =
      bind_inversion
        (review_item payload_digest agent claim.label payloads claim.editable claim.edit_note
          detail)
        _ built' in
    let same' : made ≡ item = cc in
    let (named, draft, constructed, permitted) =
      review_item-Named payload_digest agent claim.label payloads claim.editable claim.edit_note
        detail item
        (subst
          (λ i.
            review_item payload_digest agent claim.label payloads claim.editable claim.edit_note
              detail
            ≡ ok i)
          same' c) in
    (payloads, a, full, named, draft, constructed, permitted)
