-- ===== src/Gate/Upload.antt =====
-- gate/items.py, `exclusion_keys` and `artefacts_to_upload`.
pub mod Withheld
use mathlib.Core.List.{Memᴰ}
use mathlib.Core.List.Memᴰ
use mathlib.Core.List.Memᴰ.{head, tail}
use rda_data_director.Prelude.{
  ◌≡◌, refl, ◌∙◌, String, Bool, true, false, not, ◌||◌, List, [], ◌∷◌, Option, none, some, arith,
  eq_iff, str_eq, contains, contains-append, str_eq_refl, subst, any, keep_if, Memᴰ-keep_if,
  if◌then◌else◌,
}
use rda_data_director.Paths.{PurePath, last_part, as_posix, relative_to}
use rda_data_director.Contracts.Gate.{
  exclude_from_deposit, GateItem, Resolution, GateState, is_exclusion, artefact_named, item_by_id,
  excluded_artefacts,
}

abbrev pub relative_key : Option PurePath → List String
relative_key none = []
relative_key (some path) = as_posix path ∷ []

abbrev pub unpacked_key : PurePath → Option PurePath → List String
unpacked_key path none = []
unpacked_key path (some unpacked) = relative_key (relative_to path unpacked)

-- `exclusion_keys`, as a set
abbrev pub exclusion_keys : PurePath → Option PurePath → List String
exclusion_keys path unpacked = last_part path.parts ∷ as_posix path ∷ unpacked_key path unpacked

unfoldable pub artefacts_to_upload : List PurePath → List String → Option PurePath → List PurePath
artefacts_to_upload artefacts excluded unpacked =
    keep_if (λ p. not (any (contains excluded) (exclusion_keys p unpacked))) artefacts
