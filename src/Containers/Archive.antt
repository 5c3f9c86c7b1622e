-- ===== src/Containers/Archive.antt =====
-- containers/archive.py, `ZipContainer.extract` and `TarContainer.extract`: an archive as its entries,
-- with the bytes that reading each of them yields. SHA-256 over bytes is a parameter.
pub mod Bounds
use rda_data_director.Prelude.{
  ℕ, ◌+◌, String, Bool, true, false, List, [], ◌∷◌, ◌++◌, Option, none, some, Result, ok, err,
  ◌>>=◌, ◌>>◌, raise_if, not, extraction_error, ◌&&◌, length, if◌then◌else◌,
}
use rda_data_director.Paths.{PurePath, as_posix}
use rda_data_director.Contracts.Primitives.{Digest}
use rda_data_director.Containers.Safety.{
  ExtractionLimits, FileSystem, normalise_member_path, resolve_within, prepare_parent, Size, size,
  counted, ExtractionBudget, new_budget, admit, refuse_link,
}

-- An entry as `zipfile` or `tarfile` describes it, with the bytes that reading it yields. For a zip,
-- `is_link` is what the high bits of `external_attr` say.
pub record ArchiveEntry : Type 0 where
  pub filename : String
  pub is_dir : Bool
  pub is_link : Bool
  pub is_file : Bool
  pub declared : Size
  pub content : List ℕ

pub record ContainerMember : Type 0 where
  pub path : String
  pub digest : Digest
  pub byte_size : ℕ

-- The files that extraction has written, the newest first.
abbrev pub Written : Type 0
Written = List (PurePath × List ℕ)

-- What each format refuses by the kind of an entry.
unfoldable pub zip_check : ExtractionLimits → ArchiveEntry → Result (Unit {0})
zip_check limits info = if info.is_link then refuse_link limits else ok tt

unfoldable pub tar_check : ExtractionLimits → ArchiveEntry → Result (Unit {0})
unfolding zip_check
tar_check limits info = do zip_check limits info; raise_if (not info.is_file) extraction_error

module _ (check : ArchiveEntry → Result (Unit {0})) (fs : FileSystem) (sha256 : List ℕ → Digest)
    (root : PurePath) where
  -- The checks before a member counts.
  abbrev pub member_path : ArchiveEntry → Result PurePath
  member_path info = do check info; normalise_member_path info.filename

  -- The checks after it counts, before it is written.
  abbrev pub place : PurePath → Result PurePath
  place member = do target ← resolve_within fs root member; prepare_parent fs root target; ok target

  abbrev pub member_of : PurePath → ArchiveEntry → ContainerMember
  member_of member info = record {
    path = as_posix member;
    digest = sha256 info.content;
    byte_size = length info.content;
  }

  -- What is left of the loop once a member has been placed or refused.
  abbrev pub Loop : Type 0
  Loop = ExtractionBudget → Written → List ContainerMember → Result (List ContainerMember) × Written

  abbrev pub write_member :
      Loop
      → PurePath
      → ArchiveEntry
      → ExtractionBudget
      → Written
      → List ContainerMember
      → Result PurePath
      → Result (List ContainerMember) × Written
  write_member rest member info budget disk members (err e) = (err e, disk)
  write_member rest member info budget disk members (ok target) =
      rest budget ((target, info.content) ∷ disk) (members ++ member_of member info ∷ [])

  abbrev pub admitted :
      Loop
      → PurePath
      → ArchiveEntry
      → Written
      → List ContainerMember
      → Result (Unit {0}) × ExtractionBudget
      → Result (List ContainerMember) × Written
  admitted rest member info disk members (err e, budget) = (err e, disk)
  admitted rest member info disk members (ok u, budget) =
      write_member rest member info budget disk members (place member)

  abbrev pub checked :
      Loop
      → ArchiveEntry
      → ExtractionBudget
      → Written
      → List ContainerMember
      → Result PurePath
      → Result (List ContainerMember) × Written
  checked rest info budget disk members (err e) = (err e, disk)
  checked rest info budget disk members (ok member) =
      admitted rest member info disk members (admit budget info.declared)

  -- The loop of `extract`: what it has written stays there where it raises.
  unfoldable pub extract_from : List ArchiveEntry → Loop
  extract_from [] budget disk members = (ok members, disk)
  extract_from (info ∷ infos) budget disk members =
      let next = checked (extract_from infos) info budget disk members (member_path info) in
      if info.is_dir then extract_from infos budget disk members else next

  unfoldable pub extract :
      ExtractionLimits → List ArchiveEntry → Result (List ContainerMember) × Written
  unfolding extract_from
  extract limits infos = extract_from infos (new_budget limits) [] []

module _ (fs : FileSystem) (sha256 : List ℕ → Digest) (root : PurePath)
    (limits : ExtractionLimits) where
  -- `ZipContainer.extract`
  unfoldable pub extract_zip : List ArchiveEntry → Result (List ContainerMember) × Written
  unfolding extract zip_check
  extract_zip infos = extract (zip_check limits) fs sha256 root limits infos

  -- `TarContainer.extract`
  unfoldable pub extract_tar : List ArchiveEntry → Result (List ContainerMember) × Written
  unfolding extract tar_check
  extract_tar infos = extract (tar_check limits) fs sha256 root limits infos
