-- ===== src/Paths.antt =====
-- Paths as pathlib keeps them: whether a path is absolute, and its parts.
use Prim.Native.String.{String, ◌++◌ as ◌<>◌}
use rda_data_director.Prelude.{
  ◌≡◌, refl, sym, ap, ◌∙◌, arith, eq_iff, str_eq_refl, Bool, true, false, not, ◌||◌, List, [], ◌∷◌,
  ◌++◌, Option, none, some, str_eq, starts_with, split_on, keep_if, if◌then◌else◌,
}

pub record PurePath : Type 0 where
  pub absolute : Bool
  pub parts : List String

-- `path.name`
abbrev pub last_part : List String → String
last_part [] = ""
last_part (p ∷ []) = p
last_part (p ∷ q ∷ ps) = last_part (q ∷ ps)

abbrev join_parts : List String → String
join_parts [] = ""
join_parts (p ∷ []) = p
join_parts (p ∷ q ∷ ps) = p <> "/" <> join_parts (q ∷ ps)

abbrev no_parts : List String → Bool
no_parts [] = true
no_parts (p ∷ ps) = false

-- `path.as_posix()`
abbrev pub as_posix : PurePath → String
as_posix path =
    if path.absolute
    then "/" <> join_parts path.parts
    else if no_parts path.parts
    then "."
    else join_parts path.parts

abbrev pub without_prefix : List String → List String → Option (List String)
without_prefix [] ps = some ps
without_prefix (q ∷ qs) [] = none
without_prefix (q ∷ qs) (p ∷ ps) = if str_eq q p then without_prefix qs ps else none

abbrev pub both_or_neither : Bool → Bool → Bool
both_or_neither true b = b
both_or_neither false b = not b

-- `path.relative_to(base)`, with `none` for its ValueError
abbrev pub relative_to : PurePath → PurePath → Option PurePath
relative_to path base =
    if both_or_neither path.absolute base.absolute
    then elim (without_prefix base.parts path.parts) [
      | none ↦ none
      | some rest ↦ some (record { absolute = false; parts = rest })
    ]
    else none

-- `PurePosixPath(text)`: empty parts and `.` are dropped.
abbrev pub pure_path : String → PurePath
pure_path s = record {
  absolute = starts_with s "/";
  parts = keep_if (λ part. not (str_eq part "" || str_eq part ".")) (split_on b'/' s);
}

-- `base / path`
abbrev pub join_path : PurePath → PurePath → PurePath
join_path base path =
    if path.absolute
    then path
    else record { absolute = base.absolute; parts = base.parts ++ path.parts }

without_prefix-append : (qs rest : List String) → without_prefix qs (qs ++ rest) ≡ some rest
without_prefix-append [] rest = refl
without_prefix-append (q ∷ qs) rest = ground (arith, without_prefix-append qs rest, str_eq_refl q)

without_prefix-some :
    (qs ps rest : List String) → without_prefix qs ps ≡ some rest → ps ≡ qs ++ rest
without_prefix-some [] ps rest h = cc
without_prefix-some (q ∷ qs) [] rest h = cc
without_prefix-some (q ∷ qs) (p ∷ ps) rest h =
    ground (arith, without_prefix-some qs ps rest, eq_iff q p)

both_or_neither_refl : (b : Bool) → both_or_neither b b ≡ true
both_or_neither_refl true = refl
both_or_neither_refl false = refl

-- What lies under a base is found under it, as the path that was joined to it.
pub relative_to-join_path :
    (base path : PurePath)
    → path.absolute ≡ false
    → relative_to (join_path base path) base ≡ some path
relative_to-join_path base path h =
    ground (arith, without_prefix-append base.parts path.parts, both_or_neither_refl base.absolute)

pub relative_to-some :
    (path base rest : PurePath)
    → relative_to path base ≡ some rest
    → (rest.absolute ≡ false) × (path ≡ join_path base rest)
relative_to-some path base rest h =
    by_parts (both_or_neither path.absolute base.absolute) (without_prefix base.parts path.parts)
      refl refl h
  where
    same_root : (a b : Bool) → both_or_neither a b ≡ true → a ≡ b
    same_root true b e = ground arith
    same_root false b e = ground arith

    by_parts :
        (t : Bool) (o : Option (List String))
        → both_or_neither path.absolute base.absolute ≡ t
        → without_prefix base.parts path.parts ≡ o
        → (if t
            then elim o [ none ↦ none | some ps ↦ some (record { absolute = false; parts = ps }) ]
            else none)
          ≡ some rest
        → (rest.absolute ≡ false) × (path ≡ join_path base rest)
    by_parts false o e f h = cc
    by_parts true none e f h = cc
    by_parts true (some ps) e f h =
        let own : record { absolute = false; parts = ps } ≡ rest = cc in
        let root = same_root path.absolute base.absolute e in
        let parts = without_prefix-some base.parts path.parts ps f in
        (
          ap (λ (q : PurePath). q.absolute) (sym own),
          (λ i. record { absolute = root i; parts = parts i }) ∙ ap (join_path base) own,
        )
