-- ===== src/Job/Items/Roundtrip.antt =====
-- An item that is written to a log is read back as it was.
use rda_data_director.Prelude.{
  ◌≡◌, refl, ◌∙◌, List, [], ◌∷◌, String, Option, none, some, Result, ok, bind_ok,
}
use rda_data_director.Contracts.Payload.{Json, text, a_text, text_or_null, null_or}
use rda_data_director.Contracts.Gate.{
  GateItemKind, care_referral, uninspected_file, redaction_proposal, declaration_discrepancy,
  dmp_discrepancy, llm_output, Treatment, suppress, generalise, pseudonymise, coarsen, ReasonCode,
  personal_data, third_party_rights, embargo, indigenous_governance, commercial, ItemDecision,
  approve, reject, consulted, not_applicable, acknowledge, inspected_externally, publish_as_is,
  exclude_from_deposit, classify_sensitive, edited, request_rerun, RedactionProposal, GateItem,
  construct_item,
}
use rda_data_director.Gate.Items.{decision_text, reason_text}
use rda_data_director.Job.Items.{
  kind_text, kinds, treatment_text, treatments, reason_codes, member_of, dump_list, validate_items,
  decision_of, dump_proposal, validate_proposal, dump_item, validate_item,
}

kind-member : (k : GateItemKind) → member_of kind_text kinds (text (kind_text k)) ≡ ok k
kind-member care_referral = refl
kind-member uninspected_file = refl
kind-member redaction_proposal = refl
kind-member declaration_discrepancy = refl
kind-member dmp_discrepancy = refl
kind-member llm_output = refl

treatment-member :
    (t : Treatment) → member_of treatment_text treatments (text (treatment_text t)) ≡ ok t
treatment-member suppress = refl
treatment-member generalise = refl
treatment-member pseudonymise = refl
treatment-member coarsen = refl

reason-member : (r : ReasonCode) → member_of reason_text reason_codes (text (reason_text r)) ≡ ok r
reason-member personal_data = refl
reason-member third_party_rights = refl
reason-member embargo = refl
reason-member indigenous_governance = refl
reason-member commercial = refl

pub decision_of-decision_text : (d : ItemDecision) → decision_of (text (decision_text d)) ≡ ok d
unfolding decision_of
decision_of-decision_text approve = refl
decision_of-decision_text reject = refl
decision_of-decision_text consulted = refl
decision_of-decision_text not_applicable = refl
decision_of-decision_text acknowledge = refl
decision_of-decision_text inspected_externally = refl
decision_of-decision_text publish_as_is = refl
decision_of-decision_text exclude_from_deposit = refl
decision_of-decision_text classify_sensitive = refl
decision_of-decision_text edited = refl
decision_of-decision_text request_rerun = refl

validate_items-dump_list :
    {A : Type 0} (dump : A → Json) (validate : Json → Result A)
    → ((a : A) → validate (dump a) ≡ ok a)
    → (xs : List A) → validate_items validate (dump_list dump xs) ≡ ok xs
validate_items-dump_list dump validate back [] = refl
validate_items-dump_list dump validate back (x ∷ xs) =
    rw (back x, validate_items-dump_list dump validate back xs)

pub text_or_null-null_or : (o : Option String) → text_or_null (null_or o) ≡ ok o
text_or_null-null_or none = refl
text_or_null-null_or (some s) = refl

validate_proposal-dump_proposal :
    (o : Option RedactionProposal) → validate_proposal (dump_proposal o) ≡ ok o
unfolding validate_proposal dump_proposal
validate_proposal-dump_proposal none = refl
validate_proposal-dump_proposal (some p) =
    rw (reason-member p.reason_code, treatment-member p.treatment)

-- An item that was constructed is read from its JSON as it was written: nothing is lost, and none
-- of its checks refuses it.
pub validate_item-dump_item :
    (item : GateItem) → construct_item item ≡ ok item → validate_item (dump_item item) ≡ ok item
unfolding validate_item dump_item
validate_item-dump_item item good =
    bind_ok _ _ (kind-member item.kind)
    ∙ bind_ok _ _ (text_or_null-null_or item.artefact)
    ∙ bind_ok _ _ (validate_items-dump_list text a_text (λ s. refl) item.detail)
    ∙ bind_ok _ _ (validate_proposal-dump_proposal item.proposal)
    ∙ bind_ok _ _ (
        validate_items-dump_list (λ d. text (decision_text d)) decision_of decision_of-decision_text
          item.permitted_decisions)
    ∙ good
