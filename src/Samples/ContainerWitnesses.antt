-- ===== src/Samples/ContainerWitnesses.antt =====
-- An archive with one file that is kept and one that climbs out.
use rda_data_director.Prelude.{
  ◌≡◌, refl, String, true, false, List, [], ◌∷◌, some, err, extraction_error, arith,
}
use rda_data_director.Paths.{PurePath}
use rda_data_director.Containers.Safety.{
  FileSystem, size, default_limits, admit, normalise_member_path, resolve_within, prepare_parent,
}
use rda_data_director.Containers.Archive.{ArchiveEntry, extract_zip, extract_tar}
use rda_data_director.Containers.Archive.Bounds.{Kept, extraction_bounded}
use rda_data_director.Samples.Logs.{zero_digest}

-- No links: a path resolves to itself.
abbrev plain_disk : FileSystem
plain_disk = record { resolves_to = λ path. some path; is_symlink = λ path. false }

abbrev unpacked : PurePath
unpacked = record { absolute = true; parts = "work" ∷ [] }

abbrev entry : String → ArchiveEntry
entry name = record {
  filename = name;
  is_dir = false;
  is_link = false;
  is_file = true;
  declared = size 3;
  content = 97 ∷ 98 ∷ [];
}

abbrev archive : List ArchiveEntry
archive = entry "data/obs.csv" ∷ entry "../etc/passwd" ∷ []

refused_halfway : extract_zip plain_disk zero_digest unpacked default_limits archive ≡ (
  err extraction_error,
  (record { absolute = true; parts = "work" ∷ "data" ∷ "obs.csv" ∷ [] }, 97 ∷ 98 ∷ []) ∷ [],
)
unfolding extract_zip admit normalise_member_path resolve_within prepare_parent
refused_halfway = refl

extraction_bounded_example :
    Kept default_limits plain_disk unpacked
      (extract_zip plain_disk zero_digest unpacked default_limits archive).1
    × Kept default_limits plain_disk unpacked
        (extract_tar plain_disk zero_digest unpacked default_limits archive).1
extraction_bounded_example =
    extraction_bounded default_limits plain_disk zero_digest unpacked archive
      (omega arith, (omega arith, tt))
