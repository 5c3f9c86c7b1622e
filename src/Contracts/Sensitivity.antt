-- ===== src/Contracts/Sensitivity.antt =====
-- sensitivity.py: the classification lattice and the tightening asymmetry.
pub mod Asymmetry
use Prim.Native.String
use rda_data_director.Prelude.{
  ℕ, String, Bool, true, false, Option, none, some, Result, ok, err, value_error, leb,
  if◌then◌else◌,
}
use rda_data_director.Contracts.Primitives.{Orcid, is_blank}

pub data SensitivityClass : Type 0 where
  public internal sensitive : SensitivityClass

-- The order of `IntEnum`.
abbrev pub level_value : SensitivityClass → ℕ
level_value public = 0
level_value internal = 1
level_value sensitive = 2

pub record Classification : Type 0 where
  pub level : SensitivityClass
  pub established_by : Option Orcid
  pub established_by_agent : Option String
  pub rationale : Option String

-- `tighten`: available to automated components, and only raises. The projection may pass no
-- rationale, where a payload holds `null`.
unfoldable pub tighten :
    Classification → SensitivityClass → String → Option String → Result Classification
tighten self level agent rationale =
    if leb (level_value level) (level_value self.level)
    then err value_error
    else ok (record {
      level = level;
      established_by = self.established_by;
      established_by_agent = some agent;
      rationale = rationale;
    })

-- `relax_with_human_authority`: `not rationale.strip()` refuses a blank rationale.
unfoldable pub relax_with_human_authority :
    Classification → SensitivityClass → Orcid → String → Result Classification
relax_with_human_authority self level human rationale =
    if is_blank rationale
    then err value_error
    else ok (record {
      level = level;
      established_by = some human;
      established_by_agent = none;
      rationale = some rationale;
    })
