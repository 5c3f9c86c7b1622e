-- ===== src/Contracts/Primitives.antt =====
-- primitives.py: identifiers, digests and references. A checked identifier is its text here; the
-- check itself is in `Orcid`. Times are numbers of seconds.
pub mod Checksum
use Prim.Native.Char.{code}
use Prim.Native.String.{String}
use rda_data_director.Prelude.{
  ℕ, ◌≡◌, ◌↔◌, Bool, true, ◌&&◌, ◌||◌, List, [], ◌∷◌, Option, arith, eq_iff, str_eq, leb, ◌==◌,
  length, all, drop, starts_with, codes, if◌then◌else◌,
}

pub record Orcid : Type 0 where
  pub value : String

pub record Digest : Type 0 where
  pub algorithm : String
  pub value : String

pub data MaterialClass : Type 0 where
  data_material metadata_material derived_material : MaterialClass

pub record ArtefactRef : Type 0 where
  pub uri : String
  pub material_class : MaterialClass
  pub digest : Digest
  pub media_type : Option String
  pub byte_size : Option ℕ
  pub description : Option String

pub data Residency : Type 0 where
  on_premise in_jurisdiction extra_jurisdiction : Residency

abbrev between : ℕ → ℕ → ℕ → Bool
between lo hi c = leb lo c && leb c hi

-- `not s.strip()`: every character is white space.
abbrev is_space : ℕ → Bool
is_space c =
    between 9 13 c
    || between 28 32 c
    || c == 133
    || c == 160
    || c == 5760
    || between 8192 8202 c
    || between 8232 8233 c
    || c == 8239
    || c == 8287
    || c == 12288

unfoldable pub is_blank : String → Bool
is_blank s = all is_space (codes s)

-- `s.strip()`
abbrev strip_start : String → String
strip_start String.[] = String.[]
strip_start (String.◌∷◌ c s) =
    let rest = strip_start s in if is_space (code c) then rest else String.◌∷◌ c s

abbrev blank_or : String → String → String
blank_or kept String.[] = String.[]
blank_or kept (String.◌∷◌ c s) = kept

abbrev strip_end : String → String
strip_end String.[] = String.[]
strip_end (String.◌∷◌ c s) =
    let rest = strip_end s in
    if is_space (code c) then blank_or (String.◌∷◌ c rest) rest else String.◌∷◌ c rest

unfoldable pub strip : String → String
strip s = strip_end (strip_start s)

-- `[0-9A-HJKMNP-TV-Z]`
is_id_char : ℕ → Bool
is_id_char c =
    between b'0' b'9' c
    || between b'A' b'H' c
    || between b'J' b'K' c
    || between b'M' b'N' c
    || between b'P' b'T' c
    || between b'V' b'Z' c

-- The pattern of `JobId`: `job-` and 26 characters.
unfoldable pub is_job_id : String → Bool
unfolding is_id_char
is_job_id job =
    let cs = codes job in starts_with job "job-" && length cs == 30 && all is_id_char (drop 4 cs)

-- `==` of two digests.
unfoldable pub digest_eq : Digest → Digest → Bool
digest_eq a b = str_eq a.algorithm b.algorithm && str_eq a.value b.value

pub digest_eq_iff : (a b : Digest) → (digest_eq a b ≡ true) ↔ (a ≡ b)
unfolding digest_eq
digest_eq_iff a b = ground (arith, eq_iff a.algorithm b.algorithm, eq_iff a.value b.value)

-- The position of a residency in `RESIDENCY_ORDER`: most restrictive first.
abbrev pub residency_rank : Residency → ℕ
residency_rank on_premise = 0
residency_rank in_jurisdiction = 1
residency_rank extra_jurisdiction = 2
