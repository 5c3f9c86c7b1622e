-- ===== src/Policy/Enforcement/Least.antt =====
-- Which backends `resolve_backend` can reach.
use mathlib.Core.List.{Memᴰ}
use mathlib.Core.List.Memᴰ
use mathlib.Core.List.Memᴰ.{head, tail}
use rda_data_director.Prelude.{
  ◌≤◌, ◌≡◌, refl, sym, ap, ◌∙◌, subst, if◌then◌else◌, String, Bool, true, false, List, [], ◌∷◌,
  ◌++◌, Option, none, some, Result, ok, err, ◌>>=◌, bind_inversion, preference_unsatisfiable,
  policy_halt, capability_unavailable, Error, arith, Memᴰ-keep_if, keep_if,
}
use rda_data_director.Contracts.Primitives.{Residency, residency_rank}
use rda_data_director.Contracts.Sensitivity.{SensitivityClass}
use rda_data_director.Contracts.Policy.{ModelCapability, BackendPreference, is_empty, offers}
use rda_data_director.Policy.Enforcement.{
  Backend, EnforcementPoint, Candidate, permitted_backends, find_backend, configured, named_in,
  position, within, can_do, rank, sort_by, under_ceiling, prefer_named, apply_preference, effective,
  candidates, chosen, take_first, capabilities, require_some, resolve_backend,
}
use rda_data_director.Policy.Enforcement.Sorted.{Memᴰ-sort_by, IsLedBelow, led-sort_by}

Memᴰ-configured :
    {b : Backend} {name : String} (backends : List (String × Backend)) (names : List String)
    → Memᴰ (b, name) (configured backends names)
    → Memᴰ name names × (find_backend name backends ≡ some b)
Memᴰ-configured backends [] m = absurd (Memᴰ.not-nil m)
Memᴰ-configured {b} {name} backends (n ∷ names) m =
    by_entry (find_backend n backends) refl (Memᴰ-configured backends names) m
  where
    by_entry :
        (o : Option Backend)
        → find_backend n backends ≡ o
        → (Memᴰ (b, name) (configured backends names)
            → Memᴰ name names × (find_backend name backends ≡ some b))
        → Memᴰ
            (b, name)
            (elim o [
              | none ↦ configured backends names
              | some d ↦ (d, n) ∷ configured backends names
            ])
        → Memᴰ name (n ∷ names) × (find_backend name backends ≡ some b)
    by_entry none e below m = let (place, found) = below m in (tail place, found)
    by_entry (some d) e below (head same) = (
      head (ap (λ c. c.1) same),
      ap (λ c. find_backend c.1 backends) same ∙ e ∙ ap (λ c. some c.0) (sym same),
    )
    by_entry (some d) e below (tail m) = let (place, found) = below m in (tail place, found)

Memᴰ-prefer_named :
    {c : Candidate} (names : List String) (cs : List Candidate)
    → Memᴰ c (prefer_named names cs)
    → Memᴰ c cs
Memᴰ-prefer_named {c} names cs m = by_kept (keep_if (named_in names) cs) refl m
  where
    by_kept :
        (kept : List Candidate)
        → keep_if (named_in names) cs ≡ kept
        → Memᴰ c (elim kept [ [] ↦ cs | d ∷ ds ↦ sort_by (position names) (d ∷ ds) ])
        → Memᴰ c cs
    by_kept [] e m = m
    by_kept (d ∷ ds) e m =
        (Memᴰ-keep_if (named_in names) cs
          (subst (λ l. Memᴰ c l) (sym e) (Memᴰ-sort_by (position names) (d ∷ ds) m))).0

-- What the depositor set as the furthest residency, if anything.
abbrev ceiling_of : Option BackendPreference → Option Residency
ceiling_of none = none
ceiling_of (some p) = p.residency_at_most

-- No further than the ceiling.
abbrev IsWithin : Option Residency → Candidate → Type 0
IsWithin none c = Unit
IsWithin (some ceiling) c = rank c ≤ residency_rank ceiling

Memᴰ-under_ceiling :
    {c : Candidate} (o : Option Residency) (cs ds : List Candidate)
    → under_ceiling o cs ≡ ok ds
    → Memᴰ c ds
    → Memᴰ c cs × IsWithin o c
Memᴰ-under_ceiling {c} none cs ds e m = (subst (λ l. Memᴰ c l) (ok_injective e) m, tt)
  where
    ok_injective : ok cs ≡ ok ds → ds ≡ cs
    ok_injective e = cc
Memᴰ-under_ceiling {c} (some ceiling) cs ds e m =
    let kept : keep_if (within ceiling) cs ≡ ds = by_kept (keep_if (within ceiling) cs) e in
    let (place, holds) = Memᴰ-keep_if (within ceiling) cs (subst (λ l. Memᴰ c l) (sym kept) m) in
    (place, ground arith)
  where
    by_kept :
        (l : List Candidate)
        → elim l [ [] ↦ err preference_unsatisfiable | d ∷ ds ↦ ok (d ∷ ds) ] ≡ ok ds
        → l ≡ ds
    by_kept [] e = cc
    by_kept (d ∷ l) e = cc

Memᴰ-apply_preference :
    {c : Candidate} (o : Option BackendPreference) (cs ds : List Candidate)
    → apply_preference cs o ≡ ok ds
    → Memᴰ c ds
    → Memᴰ c cs × IsWithin (ceiling_of o) c
unfolding apply_preference
Memᴰ-apply_preference {c} none cs ds e m = Memᴰ-under_ceiling none cs ds e m
Memᴰ-apply_preference {c} (some p) cs ds e m = by_test (is_empty p) refl e
  where
    by_test :
        (b : Bool)
        → is_empty p ≡ b
        → (if b
            then ok cs
            else (under_ceiling p.residency_at_most cs >>= λ l.
                ok (prefer_named p.backend_names l)))
          ≡ ok ds
        → Memᴰ c cs × IsWithin p.residency_at_most c
    by_test true none_set e =
        let nowhere : p.residency_at_most ≡ none = ground arith in
        let (place, _) = Memᴰ-under_ceiling none cs ds e m in
        (place, subst (λ o. IsWithin o c) (sym nowhere) tt)
    by_test false set e =
        let (l, kept, named) =
          bind_inversion (under_ceiling p.residency_at_most cs)
            (λ l. ok (prefer_named p.backend_names l)) e in
        let same : prefer_named p.backend_names l ≡ ds = cc in
        Memᴰ-under_ceiling p.residency_at_most cs l kept
          (Memᴰ-prefer_named p.backend_names l (subst (λ l. Memᴰ c l) (sym same) m))

-- A backend that the call may use: the policy lists its name for the classification, it is
-- configured under that name, it offers the capability, and it lies within the depositor's ceiling.
pub record IsPermitted (self : EnforcementPoint) (classification : SensitivityClass)
    (capability : ModelCapability) (prefer : Option BackendPreference) (c : Candidate)
    : Type 0 where
  pub listed : Memᴰ c.1 (permitted_backends self classification)
  pub known : find_backend c.1 self.backends ≡ some c.0
  pub able : offers (capabilities c.0) capability ≡ true
  pub near : IsWithin (ceiling_of (effective self prefer)) c

module _ (self : EnforcementPoint) (classification : SensitivityClass)
    (capability : ModelCapability) (prefer : Option BackendPreference) where
  require_some-ok : (e : Error) (cs ds : List Candidate) → require_some e cs ≡ ok ds → cs ≡ ds
  require_some-ok e [] ds h = cc
  require_some-ok e (c ∷ cs) ds h = cc

  candidates-IsPermitted :
      (cs : List Candidate) (c : Candidate)
      → candidates self classification capability prefer ≡ ok cs
      → Memᴰ c cs
      → IsPermitted self classification capability prefer c
  unfolding candidates
  candidates-IsPermitted cs c e m =
      let names = permitted_backends self classification in
      let (permitted, p, e1) =
        bind_inversion (require_some policy_halt (configured self.backends names)) _ e in
      let (capable, q, e2) =
        bind_inversion (require_some capability_unavailable (keep_if (can_do capability) permitted))
          _ e1 in
      let (in_capable, near) = Memᴰ-apply_preference (effective self prefer) capable cs e2 m in
      let q' =
        require_some-ok capability_unavailable (keep_if (can_do capability) permitted) capable q in
      let p' = require_some-ok policy_halt (configured self.backends names) permitted p in
      let (in_permitted, able) =
        Memᴰ-keep_if (can_do capability) permitted (subst (λ l. Memᴰ c l) (sym q') in_capable) in
      let (listed, known) =
        Memᴰ-configured self.backends names (subst (λ l. Memᴰ c l) (sym p') in_permitted) in
      record { listed = listed; known = known; able = able; near = near }

  -- A backend that `resolve_backend` answers is listed by the policy for the classification,
  -- configured, able to do what is asked and within the residency that the depositor allows; none
  -- of the candidates that are left lies in a more restrictive residency; and its name is added to
  -- the backends that the job has resolved to.
  pub resolve_least :
      (c : Candidate)
      → (resolve_backend self classification capability prefer).0 ≡ ok c
      → IsPermitted self classification capability prefer c
        × ((cs : List Candidate) (d : Candidate)
            → candidates self classification capability prefer ≡ ok cs
            → Memᴰ d cs
            → rank c ≤ rank d)
        × ((resolve_backend self classification capability prefer).1.resolved
            ≡ self.resolved ++ c.1 ∷ [])
  unfolding resolve_backend
  resolve_least c h = by_candidates (candidates self classification capability prefer) refl h
    where
      by_first :
          (first : List Candidate)
          → (take_first self first).0 ≡ ok c
          → (rest : List Candidate) × (first ≡ c ∷ rest)
            × ((take_first self first).1.resolved ≡ self.resolved ++ c.1 ∷ [])
      by_first [] h = cc
      by_first ((b, name) ∷ rest) h =
          let same : (b, name) ≡ c = cc in
          (rest, ap (λ d. d ∷ rest) same, ap (λ d. self.resolved ++ d.1 ∷ []) same)

      by_candidates :
          (r : Result (List Candidate))
          → candidates self classification capability prefer ≡ r
          → (chosen r self).0 ≡ ok c
          → IsPermitted self classification capability prefer c
            × ((cs : List Candidate) (d : Candidate) → r ≡ ok cs → Memᴰ d cs → rank c ≤ rank d)
            × ((chosen r self).1.resolved ≡ self.resolved ++ c.1 ∷ [])
      by_candidates (err e) same h = cc
      by_candidates (ok cs) same h =
          let (rest, first, noted) = by_first (sort_by rank cs) h in
          (
            candidates-IsPermitted cs c same
                (Memᴰ-sort_by rank cs (subst (λ l. Memᴰ c l) (sym first) (head refl))),
            λ ds d e m.
                subst (λ l. IsLedBelow rank l d) first
                  (led-sort_by rank cs (subst (λ l. Memᴰ d l) (ok_injective ds e) m)),
            noted,
          )
        where
          ok_injective : (ds : List Candidate) → ok cs ≡ ok ds → ds ≡ cs
          ok_injective ds e = cc
