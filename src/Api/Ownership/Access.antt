-- ===== src/Api/Ownership/Access.antt =====
-- Owners by the log, and that owners stay owners.
use rda_data_director.Prelude.{
  ℕ, ◌≡◌, refl, sym, ap, ◌∙◌, String, Bool, true, false, ◌||◌, List, [], ◌∷◌, ◌++◌, Option, none,
  Result, ok, err, ◌>>=◌, bind_inversion, arith, eq_iff, str_eq, contains, any, if◌then◌else◌,
}
use rda_data_director.Contracts.Primitives.{Orcid, Digest}
use rda_data_director.Contracts.Payload.{Json, get, truthy}
use rda_data_director.Contracts.Events.{Event, EventKind}
use rda_data_director.Contracts.Ownership.{
  OwnershipGrant, Ownership, owners_beyond, owners, owned_by,
}
use rda_data_director.State.Store.{Store, load}
use rda_data_director.Api.Ownership.{orcid_of, created_grant, grants_of, grants_in, ownership_of}

abbrev pub granted_to : String → List OwnershipGrant → Bool
granted_to x gs = any (λ g. str_eq g.owner.value x) gs

owners_beyond-granted :
    (x : String) (seen : List String) (gs : List OwnershipGrant)
    → contains seen x ≡ false
    → any (λ o. str_eq o.value x) (owners_beyond seen gs) ≡ granted_to x gs
owners_beyond-granted x seen [] h = refl
owners_beyond-granted x seen (g ∷ gs) h = ground (
  arith,
  owners_beyond-granted x seen gs h,
  owners_beyond-granted x (g.owner.value ∷ seen) gs,
  eq_iff g.owner.value x,
)

-- Keeping each identifier once changes no answer.
pub owned_by-granted : (o : Ownership) (x : Orcid) → owned_by o x ≡ granted_to x.value o.grants
unfolding owned_by owners
owned_by-granted o x = owners_beyond-granted x.value [] o.grants refl

pub any-append :
    (x : String) (gs hs : List OwnershipGrant)
    → granted_to x (gs ++ hs) ≡ (granted_to x gs || granted_to x hs)
any-append x [] hs = refl
any-append x (g ∷ gs) hs = ground (arith, any-append x gs hs)

ok-same : {gs hs : List OwnershipGrant} → ok gs ≡ ok hs → gs ≡ hs
ok-same e = cc

granted-joined :
    (x : String) (a b a' b' : List OwnershipGrant) {gs hs : List OwnershipGrant}
    → a ++ b ≡ gs
    → a' ++ b' ≡ hs
    → granted_to x a ≡ granted_to x a'
    → (granted_to x b ≡ true → granted_to x b' ≡ true)
    → granted_to x gs ≡ true
    → granted_to x hs ≡ true
granted-joined x a b a' b' same same' here there owned =
    let before : (granted_to x a || granted_to x b) ≡ true =
      sym (any-append x a b) ∙ ap (granted_to x) same ∙ owned in
    ap (granted_to x) (sym same')
    ∙ any-append x a' b'
    ∙ or_kept (granted_to x a) (granted_to x a') (granted_to x b) (granted_to x b') here there
        before
  where
    or_kept :
        (p p' q q' : Bool) → p ≡ p' → (q ≡ true → q' ≡ true) → (p || q) ≡ true → (p' || q') ≡ true
    or_kept p p' q q' e f h = ground arith

module _ (decimal : ℕ → Option ℕ) where
  created_grant-owner :
      (n m : ℕ) (v : Json) (x : String) (a b : List OwnershipGrant)
      → created_grant decimal v n ≡ ok a
      → created_grant decimal v m ≡ ok b
      → granted_to x a ≡ granted_to x b
  created_grant-owner n m v x a b h k = by_owner (truthy v) (orcid_of decimal v) h k
    where
      by_owner :
          (t : Bool) (r : Result Orcid)
          → (if t
              then (r >>= λ owner.
                  ok (
                    record { owner = owner; granted_by = none; reason = none; granted_at = n }
                    ∷ []))
              else ok [])
            ≡ ok a
          → (if t
              then (r >>= λ owner.
                  ok (
                    record { owner = owner; granted_by = none; reason = none; granted_at = m }
                    ∷ []))
              else ok [])
            ≡ ok b
          → granted_to x a ≡ granted_to x b
      by_owner false r h k = cc
      by_owner true (err e) h k = cc
      by_owner true (ok o) h k = ground arith

  -- The time of the fold does not touch who owns.
  grants_of-owner :
      (n m : ℕ) (kind : EventKind) (ev : Event) (x : String) (a b : List OwnershipGrant)
      → grants_of decimal n kind ev ≡ ok a
      → grants_of decimal m kind ev ≡ ok b
      → granted_to x a ≡ granted_to x b
  unfolding grants_of
  grants_of-owner n m EventKind.workflow_created ev x a b h k =
      created_grant-owner n m (get "created_by" ev.payload) x a b h k
  grants_of-owner n m kind ev x a b h k = ground arith

  grants_in-kept :
      (n m : ℕ) (log more : List Event) (x : String) (gs hs : List OwnershipGrant)
      → grants_in decimal n log ≡ ok gs
      → grants_in decimal m (log ++ more) ≡ ok hs
      → granted_to x gs ≡ true
      → granted_to x hs ≡ true
  unfolding grants_in
  grants_in-kept n m [] more x gs hs h k owned = ground arith
  grants_in-kept n m (ev ∷ log) more x gs hs h k owned =
      let (a, h1, h2) = bind_inversion (grants_of decimal n ev.kind ev) _ h in
      let (b, h3, h4) = bind_inversion (grants_in decimal n log) (λ rest. ok (a ++ rest)) h2 in
      let (a', k1, k2) = bind_inversion (grants_of decimal m ev.kind ev) _ k in
      let (b', k3, k4) =
        bind_inversion (grants_in decimal m (log ++ more)) (λ rest. ok (a' ++ rest)) k2 in
      granted-joined x a b a' b' (ok-same h4) (ok-same k4)
        (grants_of-owner n m ev.kind ev x a a' h1 k1) (grants_in-kept n m log more x b b' h3 k3)
        owned

  module _ (digest_of : Event → Digest) where
    -- Ownership only grows: whoever owns a job by its log owns it by every log that extends that
    -- one, at whatever time the two are read, compensating events included.
    pub ownership_grows :
        (s t : Store) (job : String) (log more : List Event) (o p : Ownership) (x : Orcid)
        → load digest_of job s ≡ ok log
        → load digest_of job t ≡ ok (log ++ more)
        → ownership_of decimal digest_of s job ≡ ok o
        → ownership_of decimal digest_of t job ≡ ok p
        → owned_by o x ≡ true
        → owned_by p x ≡ true
    unfolding ownership_of
    ownership_grows s t job log more o p x ls lt h k owned =
        let (es, h1, h2) = bind_inversion (load digest_of job s) _ h in
        let (gs, h3, h4) = bind_inversion (grants_in decimal s.clock es) _ h2 in
        let (fs, k1, k2) = bind_inversion (load digest_of job t) _ k in
        let (hs, k3, k4) = bind_inversion (grants_in decimal t.clock fs) _ k2 in
        let es_same : es ≡ log = cc in
        let fs_same : fs ≡ log ++ more = cc in
        let o_same : gs ≡ o.grants = cc in
        let p_same : hs ≡ p.grants = cc in
        owned_by-granted p x
        ∙ ap (granted_to x.value) (sym p_same)
        ∙ grants_in-kept s.clock t.clock log more x.value gs hs
            (ap (grants_in decimal s.clock) (sym es_same) ∙ h3)
            (ap (grants_in decimal t.clock) (sym fs_same) ∙ k3)
            (ap (granted_to x.value) o_same ∙ sym (owned_by-granted o x) ∙ owned)
