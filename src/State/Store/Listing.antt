-- ===== src/State/Store/Listing.antt =====
-- Laws of the listing of a directory: where a new file lands, and what a read of it returns.
use rda_data_director.Prelude.{
  ℕ, ◌<◌, String, ◌≡◌, refl, ap, sym, subst, ◌∙◌, List, [], ◌∷◌, ◌++◌, some, ok, arith, eq_iff,
  str_eq, All, if◌then◌else◌, bind_inversion, leb, Bool-cases, inl, inr,
}
use rda_data_director.Contracts.Events.{Event, construct}
use rda_data_director.State.Store.{
  Content, whole, read_event, find_temporary, rename, atomic_write, open_temporary, flush_temporary,
  Entry, event_file, temporary, lock_file, JobDir, find_dir, put_dir, Numbered, numbered,
  insert_by_number, sort_by_number, put_file, read_all, drop_temporary, Store, write_step,
  write_steps,
}

pub find_dir-put_dir :
    (job : String) (d : JobDir) (ds : List JobDir)
    → find_dir job (put_dir d ds) ≡ (if str_eq d.job_id job then some d else find_dir job ds)
find_dir-put_dir job d [] = refl
find_dir-put_dir job d (e ∷ ds) = ground (
  arith,
  eq_iff d.job_id job,
  eq_iff e.job_id job,
  eq_iff e.job_id d.job_id,
  find_dir-put_dir job d ds,
)

pub job_id-find_dir :
    (job : String) (ds : List JobDir) (d : JobDir) → find_dir job ds ≡ some d → d.job_id ≡ job
job_id-find_dir job [] d h = cc
job_id-find_dir job (e ∷ ds) d h = ground (arith, eq_iff e.job_id job, job_id-find_dir job ds d)

abbrev pub AllBelow : ℕ → List Numbered → Type 0
AllBelow n xs = All (λ (m, c). m < n) xs

pub numbered-put_file :
    (n stamp : ℕ) (c : Content) (es : List Entry)
    → AllBelow n (numbered es)
    → numbered (put_file n stamp c es) ≡ numbered es ++ (n, c) ∷ []
numbered-put_file n stamp c [] h = refl
numbered-put_file n stamp c (event_file m old d ∷ es) h =
    ground (arith, numbered-put_file n stamp c es h.1)
numbered-put_file n stamp c (temporary m pid d ∷ es) h = numbered-put_file n stamp c es h
numbered-put_file n stamp c (lock_file ∷ es) h = numbered-put_file n stamp c es h

pub numbered-drop_temporary :
    (n pid : ℕ) (es : List Entry) → numbered (drop_temporary n pid es) ≡ numbered es
numbered-drop_temporary n pid [] = refl
numbered-drop_temporary n pid (event_file m old c ∷ es) =
    ap (λ r. (m, c) ∷ r) (numbered-drop_temporary n pid es)
numbered-drop_temporary n pid (temporary m q c ∷ es) =
    ground (arith, numbered-drop_temporary n pid es)
numbered-drop_temporary n pid (lock_file ∷ es) = numbered-drop_temporary n pid es

-- A temporary file is not listed, be it torn or whole.
pub numbered-open_temporary :
    (s : Store) (ev : Event) (es : List Entry)
    → numbered (write_steps s ev (open_temporary ∷ []) es) ≡ numbered es
numbered-open_temporary s ev es = numbered-drop_temporary ev.sequence s.pid es

pub numbered-flush_temporary :
    (s : Store) (ev : Event) (es : List Entry)
    → numbered (write_steps s ev (open_temporary ∷ flush_temporary ∷ []) es) ≡ numbered es
numbered-flush_temporary s ev es =
    numbered-drop_temporary ev.sequence s.pid (write_step s ev open_temporary es)
    ∙ numbered-open_temporary s ev es

find_temporary-head :
    (n pid : ℕ) (c : Content) (es : List Entry)
    → find_temporary n pid (temporary n pid c ∷ es) ≡ some c
find_temporary-head n pid c es = ground arith

-- The renamed file is the whole event, and it is listed.
pub numbered-write_steps :
    (s : Store) (ev : Event) (es : List Entry)
    → AllBelow ev.sequence (numbered es)
    → numbered (write_steps s ev atomic_write es) ≡ numbered es ++ (ev.sequence, whole ev) ∷ []
numbered-write_steps s ev es h =
    let opened = write_step s ev open_temporary es in
    let flushed = write_step s ev flush_temporary opened in
    let same : numbered (drop_temporary ev.sequence s.pid flushed) ≡ numbered es =
      numbered-drop_temporary ev.sequence s.pid flushed ∙ numbered-flush_temporary s ev es in
    ap (λ o. numbered (rename ev.sequence s.pid s.clock o flushed))
      (find_temporary-head ev.sequence s.pid (whole ev) (drop_temporary ev.sequence s.pid opened))
    ∙ numbered-put_file ev.sequence s.clock (whole ev) (drop_temporary ev.sequence s.pid flushed)
        (subst (AllBelow ev.sequence) (sym same) h)
    ∙ ap (λ xs. xs ++ (ev.sequence, whole ev) ∷ []) same

insert_by_number-snoc :
    (m n : ℕ) (e ev : Content) (xs : List Numbered)
    → m < n
    → insert_by_number (m, e) (xs ++ (n, ev) ∷ []) ≡ insert_by_number (m, e) xs ++ (n, ev) ∷ []
insert_by_number-snoc m n e ev [] h = ground arith
insert_by_number-snoc m n e ev ((k, x) ∷ xs) h = ground (arith, insert_by_number-snoc m n e ev xs h)

-- A file with a number above all others is listed last.
pub sort_by_number-snoc :
    (n : ℕ) (ev : Content) (xs : List Numbered)
    → AllBelow n xs
    → sort_by_number (xs ++ (n, ev) ∷ []) ≡ sort_by_number xs ++ (n, ev) ∷ []
sort_by_number-snoc n ev [] h = refl
sort_by_number-snoc n ev ((m, e) ∷ xs) h =
    rw (sort_by_number-snoc n ev xs h.1) (insert_by_number-snoc m n e ev (sort_by_number xs) h.0)

module _ {κ} (P : Numbered → Type κ) where
  All-insert_by_number :
      (x : Numbered) (xs : List Numbered) → All P (insert_by_number x xs) → P x × All P xs
  All-insert_by_number (n, e) [] h = h
  All-insert_by_number (n, e) ((m, e') ∷ xs) h = elim (Bool-cases (leb n m)) [
    | inl le ↦ rw le at h
    | inr gt ↦
        let (head, rest) : P (m, e') × All P (insert_by_number (n, e) xs) = rw gt at h in
        let (here, tail) = All-insert_by_number (n, e) xs rest in (here, (head, tail))
  ]

  -- What holds of all listed files holds of all files.
  pub All-sort_by_number : (xs : List Numbered) → All P (sort_by_number xs) → All P xs
  All-sort_by_number [] h = tt
  All-sort_by_number (x ∷ xs) h =
      let (here, rest) = All-insert_by_number x (sort_by_number xs) h in
      (here, All-sort_by_number xs rest)

pub construct_same : (ev ev' : Event) → construct ev ≡ ok ev' → ev' ≡ ev
unfolding construct
construct_same ev ev' h = ground arith

pub read_all-append :
    (xs : List Numbered) (n : ℕ) (ev : Event) (events : List Event)
    → read_all xs ≡ ok events
    → construct ev ≡ ok ev
    → read_all (xs ++ (n, whole ev) ∷ []) ≡ ok (events ++ ev ∷ [])
unfolding read_all
read_all-append [] n ev events h good = ground arith
read_all-append ((m, c) ∷ xs) n ev events h good =
    let (e', good', h') = bind_inversion (read_event c) _ h in
    let (rest, read, done) = bind_inversion (read_all xs) _ h' in
    rw (good', read_all-append xs n ev rest read good) (cc)
