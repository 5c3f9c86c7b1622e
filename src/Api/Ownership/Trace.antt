-- ===== src/Api/Ownership/Trace.antt =====
-- What a read of a job leaves behind, and who may act after it.
use rda_data_director.Prelude.{
  ℕ, ◌≡◌, ◌⊎◌, inl, inr, refl, sym, ap, ◌∙◌, subst, String, Bool, true, false, not, ◌&&◌, List, [],
  ◌∷◌, ◌++◌, Option, none, some, Result, ok, err, ◌>>=◌, bind_ok, bind_inversion, not_visible,
  authority_error, arith, str_eq, any, if◌then◌else◌, Bool-cases,
}
use rda_data_director.Contracts.Primitives.{Orcid, Digest, is_job_id}
use rda_data_director.Contracts.Primitives.Checksum.{construct_orcid}
use rda_data_director.Contracts.Payload.{
  Json, text, get, find, truthy, is_text, get-find, text_or_null,
}
use rda_data_director.Contracts.Events.{Event, EventKind, construct, is_none}
use rda_data_director.Contracts.Ownership.{AccessRole, OwnershipGrant, Ownership, owned_by}
use rda_data_director.State.Store.{Store, load, append, placed}
use rda_data_director.State.Store.Tail.{Holds}
use rda_data_director.State.Store.Append.{append-Holds, append-written}
use rda_data_director.Api.Ownership.{
  audits, orcid_of, created_grant, owner_value, added_grant, grants_of, grants_in, ownership_of,
  audit_event, after_append, require_visible, require_actor,
}
use rda_data_director.Api.Ownership.Access.{granted_to, owned_by-granted, any-append}

-- An entry that makes `x` an owner: the creation of the job by `x`, and a person's entry that adds
-- `x`.
abbrev pub names_owner : String → EventKind → Event → Bool
names_owner x EventKind.workflow_created ev =
    truthy (get "created_by" ev.payload) && is_text x (get "created_by" ev.payload)
names_owner x EventKind.owner_added ev =
    not (is_none ev.human) && is_text x (get "owner" ev.payload)
names_owner x _ ev = false

abbrev pub is_owner : List Event → Orcid → Bool
is_owner log caller = any (λ ev. names_owner caller.value ev.kind ev) log

module _ (decimal : ℕ → Option ℕ) where
  orcid_of-value :
      (v : Json) (x : String) (o : Orcid)
      → orcid_of decimal v ≡ ok o
      → is_text x v ≡ str_eq o.value x
  unfolding construct_orcid
  orcid_of-value (text s) x o h = ground arith
  orcid_of-value Json.null x o h = cc
  orcid_of-value (Json.bool b) x o h = cc
  orcid_of-value (Json.nat n) x o h = cc
  orcid_of-value (Json.neg n) x o h = cc
  orcid_of-value (Json.array vs) x o h = cc
  orcid_of-value (Json.object fs) x o h = cc

  created_grant-names :
      (n : ℕ) (v : Json) (x : String) (gs : List OwnershipGrant)
      → created_grant decimal v n ≡ ok gs
      → granted_to x gs ≡ (truthy v && is_text x v)
  created_grant-names n v x gs h =
      by_owner (truthy v) (orcid_of decimal v) (is_text x v) (orcid_of-value v x) h
    where
      by_owner :
          (t : Bool) (r : Result Orcid) (same : Bool)
          → ((o : Orcid) → r ≡ ok o → same ≡ str_eq o.value x)
          → (if t
              then (r >>= λ owner.
                  ok (
                    record { owner = owner; granted_by = none; reason = none; granted_at = n }
                    ∷ []))
              else ok [])
            ≡ ok gs
          → granted_to x gs ≡ (t && same)
      by_owner false r same named h = ground arith
      by_owner true (err e) same named h = cc
      by_owner true (ok o) same named h = let own = named o refl in ground arith

  owner_value-some :
      (o : Option Json) (owner : Orcid)
      → owner_value decimal o ≡ ok owner
      → (v : Json) × (o ≡ some v) × (orcid_of decimal v ≡ ok owner)
  owner_value-some none owner h = cc
  owner_value-some (some v) owner h = (v, refl, h)

  added_grant-names :
      (ev : Event) (human : Option Orcid) (x : String) (gs : List OwnershipGrant)
      → added_grant decimal human ev ≡ ok gs
      → granted_to x gs ≡ (not (is_none human) && is_text x (get "owner" ev.payload))
  added_grant-names ev none x gs h = ground arith
  added_grant-names ev (some human) x gs h =
      let (owner, a, h1) = bind_inversion (owner_value decimal (find "owner" ev.payload)) _ h in
      let (reason, b, h2) = bind_inversion (text_or_null (get "reason" ev.payload)) _ h1 in
      let (v, found, made) = owner_value-some (find "owner" ev.payload) owner a in
      let named : get "owner" ev.payload ≡ v = get-find "owner" ev.payload v found in
      let own : is_text x v ≡ str_eq owner.value x = orcid_of-value v x owner made in
      let same : gs
          ≡ record {
            owner = owner;
            granted_by = some human;
            reason = reason;
            granted_at = ev.occurred_at;
          }
            ∷ [] =
        cc in
      ap (granted_to x) same
      ∙ granted-one owner (some human) reason ev.occurred_at
      ∙ sym own
      ∙ ap (is_text x) (sym named)
    where
      granted-one :
          (o : Orcid) (by : Option Orcid) (reason : Option String) (at : ℕ)
          → granted_to x
              (record { owner = o; granted_by = by; reason = reason; granted_at = at } ∷ [])
            ≡ str_eq o.value x
      granted-one o by reason at = ground arith

  grants_of-names :
      (n : ℕ) (kind : EventKind) (ev : Event) (x : String) (gs : List OwnershipGrant)
      → grants_of decimal n kind ev ≡ ok gs
      → granted_to x gs ≡ names_owner x kind ev
  unfolding grants_of
  grants_of-names n EventKind.workflow_created ev x gs h =
      created_grant-names n (get "created_by" ev.payload) x gs h
  grants_of-names n EventKind.owner_added ev x gs h = added_grant-names ev ev.human x gs h
  grants_of-names n kind ev x gs h = ground arith

  -- The owners of a fold are those that the entries name.
  grants_in-names :
      (n : ℕ) (log : List Event) (x : String) (gs : List OwnershipGrant)
      → grants_in decimal n log ≡ ok gs
      → granted_to x gs ≡ any (λ ev. names_owner x ev.kind ev) log
  unfolding grants_in
  grants_in-names n [] x gs h = ground arith
  grants_in-names n (ev ∷ log) x gs h =
      let (a, h1, h2) = bind_inversion (grants_of decimal n ev.kind ev) _ h in
      let (b, h3, h4) = bind_inversion (grants_in decimal n log) (λ rest. ok (a ++ rest)) h2 in
      let same : a ++ b ≡ gs = cc in
      ap (granted_to x) (sym same)
      ∙ any-append x a b
      ∙ rw (grants_of-names n ev.kind ev x a h1, grants_in-names n log x b h3) refl

  grants_in-plain :
      (n : ℕ) (log : List Event) (ev : Event) (gs : List OwnershipGrant)
      → grants_of decimal n ev.kind ev ≡ ok []
      → grants_in decimal n log ≡ ok gs
      → grants_in decimal n (log ++ ev ∷ []) ≡ ok gs
  unfolding grants_in
  grants_in-plain n [] ev gs plain h = rw plain h
  grants_in-plain n (e ∷ log) ev gs plain h =
      let (a, h1, h2) = bind_inversion (grants_of decimal n e.kind e) _ h in
      let (b, h3, h4) = bind_inversion (grants_in decimal n log) (λ rest. ok (a ++ rest)) h2 in
      rw (h1, grants_in-plain n log ev b plain h3) h4

  module _ (digest_of : Event → Digest) (s : Store) (job : String) (log : List Event)
      (o : Ownership) (caller : Orcid) (roles : List AccessRole) (agent : String)
      (holds : Holds digest_of job s log) (named : is_job_id job ≡ true)
      (folded : ownership_of decimal digest_of s job ≡ ok o) where
    abbrev Read : Type 0
    Read = Result Ownership × Store

    -- The folded grants, and who owns by them.
    owned_by-is_owner : owned_by o caller ≡ is_owner log caller
    unfolding ownership_of
    owned_by-is_owner =
        let (es, h1, h2) = bind_inversion (load digest_of job s) _ folded in
        let (gs, h3, h4) = bind_inversion (grants_in decimal s.clock es) _ h2 in
        let same : es ≡ log = cc (holds.loads) in
        let grants : gs ≡ o.grants = cc in
        owned_by-granted o caller
        ∙ ap (granted_to caller.value) (sym grants)
        ∙ grants_in-names s.clock log caller.value gs
            (ap (grants_in decimal s.clock) (sym same) ∙ h3)

    abbrev entry : Event
    entry = placed digest_of log (audit_event job caller agent s.clock)

    constructed :
        construct (audit_event job caller agent s.clock) ≡ ok (audit_event job caller agent s.clock)
    unfolding construct
    constructed = rw named refl

    abbrev appended : Result Event × Store
    appended = append digest_of (audit_event job caller agent s.clock) s

    appended-facts :
        (appended.0 ≡ ok entry)
        × Holds digest_of job appended.1 (log ++ entry ∷ [])
        × (ownership_of decimal digest_of appended.1 job ≡ ok o)
    unfolding ownership_of
    appended-facts =
        let event = audit_event job caller agent s.clock in
        let (answer, after, others) = append-Holds digest_of event s log constructed holds in
        let clock : appended.1.clock ≡ s.clock =
          ap (λ (p : Result Event × Store). p.1.clock)
            (append-written digest_of event s log holds) in
        let (es, h1, h2) = bind_inversion (load digest_of job s) _ folded in
        let (gs, h3, h4) = bind_inversion (grants_in decimal s.clock es) _ h2 in
        let same : es ≡ log = cc (holds.loads) in
        let grown : grants_in decimal appended.1.clock (log ++ entry ∷ []) ≡ ok gs =
          ap (λ n. grants_in decimal n (log ++ entry ∷ [])) clock
          ∙ grants_in-plain s.clock log entry gs (unfold grants_of in refl)
              (ap (grants_in decimal s.clock) (sym same) ∙ h3) in
        (answer, after, rw (after.loads, grown) h4)

    abbrev read : Read
    read = require_visible decimal digest_of s job caller roles agent

    abbrev acts_after : Result Ownership
    acts_after = require_actor decimal digest_of read.1 job caller roles

    actor-of :
        (t : Store)
        → ownership_of decimal digest_of t job ≡ ok o
        → require_actor decimal digest_of t job caller roles ≡ (
            if owned_by o caller
            then ok o
            else if audits roles
            then err authority_error
            else err not_visible)
    unfolding require_actor
    actor-of t h = bind_ok (ownership_of decimal digest_of t job) _ h

    audited-Read : owned_by o caller ≡ false → audits roles ≡ true → read ≡ (ok o, appended.1)
    unfolding require_visible
    audited-Read other audited = rw (folded, other, audited) (answers appended appended-facts.0)
      where
        answers :
            (a : Result Event × Store) → a.0 ≡ ok entry → after_append a (λ t. ok o) ≡ (ok o, a.1)
        answers (ok e, t) h = refl
        answers (err e, t) h = cc

    -- A read of a job, and an action by the same person after it. Whom the log names as an owner
    -- reads it and may act, and the read writes nothing. An auditor whom it does not name reads it
    -- with one more entry at the end of the log, which says that this person had access, and is still
    -- refused to act. Anyone else is told both times that there is no such job, and nothing is
    -- written. No read changes who owns the job.
    pub access_rules :
        (ownership_of decimal digest_of read.1 job ≡ ok o)
        × (((is_owner log caller ≡ true) × (read ≡ (ok o, s)) × (acts_after ≡ ok o))
            ⊎ ((is_owner log caller ≡ false)
                × (audits roles ≡ true)
                × (read.0 ≡ ok o)
                × ((ev : Event) × Holds digest_of job read.1 (log ++ ev ∷ [])
                    × (ev.kind ≡ EventKind.access_audited)
                    × (ev.human ≡ some caller))
                × (acts_after ≡ err authority_error))
            ⊎ ((is_owner log caller ≡ false)
                × (audits roles ≡ false)
                × (read ≡ (err not_visible, s))
                × (acts_after ≡ err not_visible)))
    unfolding require_visible
    access_rules = elim (Bool-cases (owned_by o caller)) [
      | inl owned ↦
          let same : read ≡ (ok o, s) = rw (folded, owned) refl in
          let kept = ap (λ (r : Read). ownership_of decimal digest_of r.1 job) same ∙ folded in
          (kept, inl (sym owned_by-is_owner ∙ owned, same, actor-of read.1 kept ∙ rw owned refl))
      | inr other ↦ elim (Bool-cases (audits roles)) [
        | inl audited ↦
            let same = audited-Read other audited in
            let (answer, after, owners) = appended-facts in
            let kept = ap (λ (r : Read). ownership_of decimal digest_of r.1 job) same ∙ owners in
            (
              kept,
              inr (
                  inl (
                    sym owned_by-is_owner ∙ other,
                    audited,
                    ap (λ (r : Read). r.0) same,
                    (
                      entry,
                      subst (λ (r : Read). Holds digest_of job r.1 (log ++ entry ∷ [])) (sym same)
                          after,
                      refl,
                      refl,
                    ),
                    actor-of read.1 kept ∙ rw (other, audited) refl,
                  )),
            )
        | inr plain ↦
            let same : read ≡ (err not_visible, s) = rw (folded, other, plain) refl in
            let kept = ap (λ (r : Read). ownership_of decimal digest_of r.1 job) same ∙ folded in
            (
              kept,
              inr (
                  inr (
                    sym owned_by-is_owner ∙ other,
                    plain,
                    same,
                    actor-of read.1 kept ∙ rw (other, plain) refl,
                  )),
            )
      ]
    ]
