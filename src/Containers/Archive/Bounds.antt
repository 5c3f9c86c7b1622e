-- ===== src/Containers/Archive/Bounds.antt =====
-- What extraction can have written, whether it ends well or raises.
use rda_data_director.Prelude.{
  ℕ, ◌+◌, ◌≤◌, ◌≡◌, refl, ap, Bool, true, false, not, List, [], ◌∷◌, Option, none, some, Result, ok,
  err, bind_inversion, raise_if_inversion, extraction_error, length, All, arith, if◌then◌else◌,
  subst,
}
use rda_data_director.Paths.{PurePath, join_path}
use rda_data_director.Contracts.Primitives.{Digest}
use rda_data_director.Containers.Safety.{
  ExtractionLimits, FileSystem, is_within, resolved, resolve_within, prepare_parent, counted,
  ExtractionBudget, new_budget, admit,
}
use rda_data_director.Containers.Safety.Names.{IsBelow, normalise_member_path-IsBelow}
use rda_data_director.Containers.Archive.{
  ArchiveEntry, ContainerMember, Written, Loop, member_path, place, write_member, admitted, checked,
  extract_from, extract, zip_check, tar_check, extract_zip, extract_tar,
}

-- Reading an entry yields no more than its header declares.
abbrev pub IsHonest : ArchiveEntry → Type 0
IsHonest info = length info.content ≤ counted info.declared

abbrev pub bytes_in : Written → ℕ
bytes_in [] = 0
bytes_in ((path, content) ∷ more) = length content + bytes_in more

-- A budget whose counts are those of the files written, or more, and are within its limits.
record Covers (limits : ExtractionLimits) (b : ExtractionBudget) (disk : Written) : Type 0 where
  same : b.limits ≡ limits
  counts : length disk ≤ b.member_count
  weighs : bytes_in disk ≤ b.total_bytes
  few : b.member_count ≤ limits.max_member_count
  small : b.total_bytes ≤ limits.max_total_uncompressed_bytes

admit-Covers :
    (limits : ExtractionLimits) (b : ExtractionBudget) (disk : Written) (path : PurePath)
    (info : ArchiveEntry) (u : Unit {0})
    → IsHonest info
    → Covers limits b disk
    → (admit b info.declared).0 ≡ ok u
    → Covers limits (admit b info.declared).1 ((path, info.content) ∷ disk)
unfolding admit
admit-Covers limits b disk path info u honest c h = ground arith

module _ (fs : FileSystem) (root : PurePath) where
  -- A file lies below the root, and so does what its path resolves to.
  pub record IsPlaced (path : PurePath) : Type 0 where
    pub named : IsBelow root path
    pub real : PurePath
    pub resolves : fs.resolves_to path ≡ some real
    pub inside : is_within root real ≡ true

resolved-ok :
    (fs : FileSystem) (path real : PurePath)
    → resolved fs path ≡ ok real
    → fs.resolves_to path ≡ some real
resolved-ok fs path real h = by_answer (fs.resolves_to path) h
  where
    by_answer :
        (o : Option PurePath)
        → (elim o [ none ↦ err extraction_error | some p ↦ ok p ]) ≡ ok real
        → o ≡ some real
    by_answer none h = cc
    by_answer (some p) h = cc

abbrev pub Kept : ExtractionLimits → FileSystem → PurePath → Written → Type 0
Kept limits fs root disk =
    (length disk ≤ limits.max_member_count)
    × (bytes_in disk ≤ limits.max_total_uncompressed_bytes)
    × All (λ w. IsPlaced fs root w.0) disk

module _ (limits : ExtractionLimits) (check : ArchiveEntry → Result (Unit {0})) (fs : FileSystem)
    (sha256 : List ℕ → Digest) (root : PurePath) where
  place-IsPlaced :
      (info : ArchiveEntry) (member target : PurePath)
      → member_path check fs sha256 root info ≡ ok member
      → place check fs sha256 root member ≡ ok target
      → IsPlaced fs root target
  unfolding resolve_within
  place-IsPlaced info member target named placed =
      let (u, linked, normal) = bind_inversion (check info) _ named in
      let (t, reached, h1) = bind_inversion (resolve_within fs root member) _ placed in
      let (v, parented, same) = bind_inversion (prepare_parent fs root t) _ h1 in
      let (real, answer, h2) = bind_inversion (resolved fs (join_path root member)) _ reached in
      let (inside, joined) = raise_if_inversion (not (is_within root real)) extraction_error _ h2 in
      let place_is : join_path root member ≡ target = cc in
      subst (IsPlaced fs root) place_is (record {
        named = normalise_member_path-IsBelow root info.filename member normal;
        real = real;
        resolves = resolved-ok fs (join_path root member) real answer;
        inside = ground arith;
      })

  module _ (infos : List ArchiveEntry)
      (rest_keeps : (b : ExtractionBudget) (disk : Written) (members : List ContainerMember)
        → Covers limits b disk
        → All (λ w. IsPlaced fs root w.0) disk
        → Kept limits fs root (extract_from check fs sha256 root infos b disk members).1)
      (info : ArchiveEntry) (b : ExtractionBudget) (disk : Written) (members : List ContainerMember)
      (honest : IsHonest info) (c : Covers limits b disk)
      (there : All (λ w. IsPlaced fs root w.0) disk) where
    as_before : Kept limits fs root disk
    as_before = (omega (arith, c.counts, c.few), omega (arith, c.weighs, c.small), there)

    abbrev rest : Loop check fs sha256 root
    rest = extract_from check fs sha256 root infos

    write_member-Kept :
        (member : PurePath) (b' : ExtractionBudget)
        → member_path check fs sha256 root info ≡ ok member
        → ((path : PurePath) → Covers limits b' ((path, info.content) ∷ disk))
        → (p : Result PurePath) → place check fs sha256 root member ≡ p
        → Kept limits fs root
            (write_member check fs sha256 root rest member info b' disk members p).1
    write_member-Kept member b' named more (err e) h = as_before
    write_member-Kept member b' named more (ok target) h =
        rest_keeps _ _ _ (more target) (place-IsPlaced info member target named h, there)

    admitted-Kept :
        (member : PurePath)
        → member_path check fs sha256 root info ≡ ok member
        → (a : Result (Unit {0}) × ExtractionBudget) → admit b info.declared ≡ a
        → Kept limits fs root (admitted check fs sha256 root rest member info disk members a).1
    admitted-Kept member named (err e, b') h = as_before
    admitted-Kept member named (ok u, b') h =
        write_member-Kept member b' named
          (λ path.
            subst (λ (x : ExtractionBudget). Covers limits x ((path, info.content) ∷ disk))
              (ap (λ (a : Result (Unit {0}) × ExtractionBudget). a.1) h)
              (admit-Covers limits b disk path info u honest c
                (ap (λ (a : Result (Unit {0}) × ExtractionBudget). a.0) h)))
          (place check fs sha256 root member) refl

    checked-Kept :
        (m : Result PurePath)
        → member_path check fs sha256 root info ≡ m
        → Kept limits fs root (checked check fs sha256 root rest info b disk members m).1
    checked-Kept (err e) h = as_before
    checked-Kept (ok member) h = admitted-Kept member h (admit b info.declared) refl

  extract_from-Kept :
      (infos : List ArchiveEntry) (b : ExtractionBudget) (disk : Written)
      (members : List ContainerMember)
      → All IsHonest infos
      → Covers limits b disk
      → All (λ w. IsPlaced fs root w.0) disk
      → Kept limits fs root (extract_from check fs sha256 root infos b disk members).1
  unfolding extract_from
  extract_from-Kept [] b disk members honest c there =
      (omega (arith, c.counts, c.few), omega (arith, c.weighs, c.small), there)
  extract_from-Kept (info ∷ infos) b disk members (here, more) c there =
      by_kind info.is_dir _ _ (extract_from-Kept infos b disk members more c there) (
        checked-Kept infos (λ b' disk' members'. extract_from-Kept infos b' disk' members' more)
          info b disk members here c there (member_path check fs sha256 root info) refl)
    where
      by_kind :
          (dir : Bool) (x y : Result (List ContainerMember) × Written)
          → Kept limits fs root x.1
          → Kept limits fs root y.1
          → Kept limits fs root (if dir then x else y).1
      by_kind true x y kx ky = kx
      by_kind false x y kx ky = ky

  pub extract-Kept :
      (infos : List ArchiveEntry)
      → All IsHonest infos
      → Kept limits fs root (extract check fs sha256 root limits infos).1
  unfolding extract
  extract-Kept infos honest =
      extract_from-Kept infos (new_budget limits) [] [] honest
        (record {
          same = refl;
          counts = omega arith;
          weighs = omega arith;
          few = omega arith;
          small = omega arith;
        })
        tt

-- Whatever a zip or a tar archive holds, and also where extraction raises part of the way: if reading
-- an entry yields no more than it declares, the files written are no more than the limit on members
-- and weigh no more than the limit on bytes; and each lies below the root, by its name with no parent
-- reference and by what its path resolves to.
pub extraction_bounded :
    (limits : ExtractionLimits) (fs : FileSystem) (sha256 : List ℕ → Digest) (root : PurePath)
    (infos : List ArchiveEntry)
    → All IsHonest infos
    → Kept limits fs root (extract_zip fs sha256 root limits infos).1
      × Kept limits fs root (extract_tar fs sha256 root limits infos).1
unfolding extract_zip extract_tar
extraction_bounded limits fs sha256 root infos honest = (
  extract-Kept limits (zip_check limits) fs sha256 root infos honest,
  extract-Kept limits (tar_check limits) fs sha256 root infos honest,
)
