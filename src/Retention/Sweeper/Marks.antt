-- ===== src/Retention/Sweeper/Marks.antt =====
-- retention/sweeper.py: marking candidates, and the marks whose grace is over.
use rda_data_director.Prelude.{
  ℕ, ◌+◌, ◌*◌, String, Bool, true, false, List, [], ◌∷◌, Option, none, some, Result, ok, err,
  authority_error, leb, str_eq, keep_if, ◌&&◌, if◌then◌else◌,
}
use rda_data_director.Contracts.Primitives.{Orcid}
use rda_data_director.Contracts.Events.{is_none}
use rda_data_director.Contracts.Retention.{
  RetentionCategory, closed_not_shared, active, RetentionCandidate, RetentionMark,
}
use rda_data_director.Retention.Sweeper.{Directory, RetentionSweeper, sort_dirs}

abbrev is_active : RetentionCategory → Bool
is_active active = true
is_active _ = false

abbrev is_unshared : RetentionCategory → Bool
is_unshared closed_not_shared = true
is_unshared _ = false

abbrev put_mark : String → Option RetentionMark → List Directory → List Directory
put_mark path m [] = []
put_mark path m (d ∷ ds) =
    if str_eq d.name path then record d { mark = m } ∷ ds else d ∷ put_mark path m ds

abbrev pub mark_of : RetentionSweeper → RetentionCandidate → ℕ → Option Orcid → RetentionMark
mark_of self c now human = record {
  job_id = c.job_id;
  category = c.category;
  reason = c.reason;
  marked_at = now;
  delete_after = now + self.grace c.category * 86400;
  pid = c.pid;
  marked_by = human;
}

-- `mark`, of a candidate whose directory is there
unfoldable pub mark :
    RetentionSweeper
    → RetentionCandidate
    → ℕ
    → Option Orcid
    → Result RetentionMark × RetentionSweeper
mark self c now human =
    if is_active c.category
    then (err authority_error, self)
    else if is_unshared c.category && is_none human
    then (err authority_error, self)
    else (
      ok (mark_of self c now human),
      record self { root = put_mark c.path (some (mark_of self c now human)) self.root },
    )

unfoldable pub unmark : RetentionSweeper → String → RetentionSweeper
unmark self path = record self { root = put_mark path none self.root }

abbrev is_due : ℕ → Option RetentionMark → Bool
is_due now none = false
is_due now (some m) = leb m.delete_after now

-- The directories of `due`.
unfoldable pub due : RetentionSweeper → ℕ → List Directory
due self now = keep_if (λ d. is_due now d.mark) (sort_dirs self.root)
