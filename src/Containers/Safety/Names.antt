-- ===== src/Containers/Safety/Names.antt =====
-- A member's name that is not refused names a place below the root.
use rda_data_director.Prelude.{
  ◌≡◌, String, false, List, ◌++◌, ok, raise_if_inversion, extraction_error, ◌||◌, contains, arith,
  starts_with,
}
use rda_data_director.Paths.{PurePath, pure_path, join_path}
use rda_data_director.Containers.Safety.{is_unusable, has_null, has_drive, normalise_member_path}

-- A path below a root, reached without a parent reference.
pub record IsBelow (root path : PurePath) : Type 0 where
  pub rest : List String
  pub below : path ≡ record root { parts = root.parts ++ rest }
  pub no_parent : contains rest ".." ≡ false

-- A member whose name is accepted lies below the root it is joined to, with no parent reference.
pub normalise_member_path-IsBelow :
    (root : PurePath) (name : String) (member : PurePath)
    → normalise_member_path name ≡ ok member
    → IsBelow root (join_path root member)
unfolding normalise_member_path
normalise_member_path-IsBelow root name member h =
    let (usable, h1) = raise_if_inversion (is_unusable name) extraction_error _ h in
    let (no_null, h2) = raise_if_inversion (has_null name) extraction_error _ h1 in
    let (relative, h3) =
      raise_if_inversion (starts_with name "/" || has_drive name) extraction_error _ h2 in
    let (inside, h4) =
      raise_if_inversion (contains (pure_path name).parts "..") extraction_error _ h3 in
    record { rest = member.parts; below = ground arith; no_parent = ground arith }
