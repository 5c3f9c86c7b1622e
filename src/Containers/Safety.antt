-- ===== src/Containers/Safety.antt =====
-- containers/safety.py: the refusals of guarded extraction, with the limits of containers.py in the
-- contracts. What a path resolves to on disk, and whether it is a symbolic link, are parameters:
-- extraction writes regular files and directories only, so they stay as they are throughout.
pub mod Names
use Prim.Native.Char.{code}
use Prim.Native.String.{String}
use rda_data_director.Prelude.{
  ℕ, suc, ◌+◌, Bool, true, false, not, ◌&&◌, ◌||◌, List, [], ◌∷◌, Option, none, some, Result, ok,
  err, ◌>>=◌, ◌>>◌, raise_if, extraction_error, ltb, leb, ◌==◌, str_eq, any, contains, keep_if,
  codes, starts_with, if◌then◌else◌,
}
use rda_data_director.Paths.{PurePath, pure_path, join_path}

pub record ExtractionLimits : Type 0 where
  pub max_total_uncompressed_bytes : ℕ
  pub max_member_count : ℕ
  pub max_nesting_depth : ℕ
  pub allow_symlinks : Bool
  pub allow_absolute_paths : Bool

abbrev pub default_limits : ExtractionLimits
default_limits = record {
  max_total_uncompressed_bytes = 5368709120;
  max_member_count = 10000;
  max_nesting_depth = 1;
  allow_symlinks = false;
  allow_absolute_paths = false;
}

-- `len(name) > 1 and name[1] == ":"`
abbrev pub has_drive : String → Bool
has_drive (String.◌∷◌ c (String.◌∷◌ d s)) = code d == b':'
has_drive _ = false

abbrev pub is_unusable : String → Bool
is_unusable name = str_eq name "" || str_eq name "." || str_eq name ".."

abbrev pub has_null : String → Bool
has_null name = any (λ c. c == 0) (codes name)

unfoldable pub normalise_member_path : String → Result PurePath
normalise_member_path name = do
  raise_if (is_unusable name) extraction_error
  raise_if (has_null name) extraction_error
  raise_if (starts_with name "/" || has_drive name) extraction_error
  raise_if (contains (pure_path name).parts "..") extraction_error
  ok (pure_path name)

abbrev pub is_prefix : List String → List String → Bool
is_prefix [] qs = true
is_prefix (p ∷ ps) [] = false
is_prefix (p ∷ ps) (q ∷ qs) = str_eq p q && is_prefix ps qs

abbrev pub same_root : Bool → Bool → Bool
same_root true b = b
same_root false b = not b

-- `path == root or root in path.parents`
abbrev pub is_within : PurePath → PurePath → Bool
is_within root path = same_root root.absolute path.absolute && is_prefix root.parts path.parts

-- What the file system answers: `none` stands for OSError.
pub record FileSystem : Type 0 where
  pub resolves_to : PurePath → Option PurePath
  pub is_symlink : PurePath → Bool

abbrev pub resolved : FileSystem → PurePath → Result PurePath
resolved fs path = elim (fs.resolves_to path) [ none ↦ err extraction_error | some p ↦ ok p ]

unfoldable pub resolve_within : FileSystem → PurePath → PurePath → Result PurePath
resolve_within fs root member = do
  real ← resolved fs (join_path root member)
  raise_if (not (is_within root real)) extraction_error
  ok (join_path root member)

-- `path.parent`
abbrev pub all_but_last : List String → List String
all_but_last [] = []
all_but_last (p ∷ []) = []
all_but_last (p ∷ q ∷ ps) = p ∷ all_but_last (q ∷ ps)

abbrev pub parent : PurePath → PurePath
parent path = record path { parts = all_but_last path.parts }

-- The checks of `prepare_parent`; the directory that it makes is left out.
unfoldable pub prepare_parent : FileSystem → PurePath → PurePath → Result (Unit {0})
prepare_parent fs root path = do
  raise_if (fs.is_symlink (parent path)) extraction_error
  real ← resolved fs (parent path)
  raise_if (not (is_within root real)) extraction_error

-- A declared size, which a damaged header may make negative: `below_zero n` is -(n + 1).
pub data Size : Type 0 where
  size : ℕ → Size
  below_zero : ℕ → Size

-- `max(declared_size, 0)`
abbrev pub counted : Size → ℕ
counted (size n) = n
counted (below_zero n) = 0

pub record ExtractionBudget : Type 0 where
  pub limits : ExtractionLimits
  pub total_bytes : ℕ
  pub member_count : ℕ

abbrev pub new_budget : ExtractionLimits → ExtractionBudget
new_budget limits = record { limits = limits; total_bytes = 0; member_count = 0 }

-- `admit`: the counts that it raises stay raised where it refuses.
unfoldable pub admit : ExtractionBudget → Size → Result (Unit {0}) × ExtractionBudget
admit b declared =
    let one_more : ExtractionBudget = record b { member_count = b.member_count + 1 } in
    let larger : ExtractionBudget = record one_more {
      total_bytes = b.total_bytes + counted declared;
    } in
    if ltb b.limits.max_member_count one_more.member_count
    then (err extraction_error, one_more)
    else if ltb b.limits.max_total_uncompressed_bytes larger.total_bytes
    then (err extraction_error, larger)
    else (ok tt, larger)

abbrev pub refuse_link : ExtractionLimits → Result (Unit {0})
refuse_link limits = raise_if (not limits.allow_symlinks) extraction_error

-- `Path(m).suffix.lower() in suffixes` is the parameter `is_archive`.
unfoldable pub nested_members : (String → Bool) → List String → ExtractionLimits → List String
nested_members is_archive members limits =
    if leb 2 limits.max_nesting_depth then [] else keep_if is_archive members
