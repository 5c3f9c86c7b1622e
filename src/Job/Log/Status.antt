-- ===== src/Job/Log/Status.antt =====
-- What `job_status` counts as held and as open.
use rda_data_director.Prelude.{
  ◌≡◌, ◌∙◌, true, false, not, List, [], ◌∷◌, ◌++◌, ok, bind_inversion, arith, contains,
  contains-append, String, str_eq_refl,
}
use rda_data_director.Contracts.Events.{Event}
use rda_data_director.Contracts.Gate.Open.{ids, closed-keep_if}
use rda_data_director.Job.Log.{
  JobStatus, is_confirmed, decided_by_kind, decided_ids, log_items, job_status,
}

-- A job whose status is read is held exactly until a declaration is confirmed.
pub blocked-is_confirmed :
    (log : List Event) (s : JobStatus) → job_status log ≡ ok s → s.blocked ≡ not (is_confirmed log)
unfolding job_status
blocked-is_confirmed log s h =
    let (resolved, a, h') = bind_inversion (decided_ids log) _ h in
    let (items, b, h'') = bind_inversion (log_items log) _ h' in ground arith

-- The item of the newest decision is in the set of the decided ones.
pub decided_ids-snoc :
    (log : List Event) (ev : Event) (id : String) {names : List String}
    → decided_by_kind ev.kind ev ≡ ok (id ∷ [])
    → decided_ids (log ++ ev ∷ []) ≡ ok names
    → contains names id ≡ true
unfolding decided_ids
decided_ids-snoc [] ev id own h =
    let (first, a, h') = bind_inversion (decided_by_kind ev.kind ev) _ h in
    ground (arith, str_eq_refl id)
decided_ids-snoc (e ∷ log) ev id own h =
    let (first, a, h') = bind_inversion (decided_by_kind e.kind e) _ h in
    let (rest, b, same) = bind_inversion (decided_ids (log ++ ev ∷ [])) _ h' in
    let found = decided_ids-snoc log ev id own b in
    let there : contains (first ++ rest) id ≡ true = contains-append first rest id ∙ ground arith in
    cc

-- Any decision on an item takes it off the list that `job_status` calls unresolved.
pub job_status-snoc :
    (log : List Event) (ev : Event) (id : String) (s : JobStatus)
    → decided_by_kind ev.kind ev ≡ ok (id ∷ [])
    → job_status (log ++ ev ∷ []) ≡ ok s
    → contains (ids s.unresolved) id ≡ false
unfolding job_status
job_status-snoc log ev id s own h =
    let (resolved, a, h') = bind_inversion (decided_ids (log ++ ev ∷ [])) _ h in
    let (items, b, h'') = bind_inversion (log_items (log ++ ev ∷ [])) _ h' in
    let found = decided_ids-snoc log ev id own a in
    let closed = closed-keep_if resolved items id found in cc
