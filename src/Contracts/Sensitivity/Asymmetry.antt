-- ===== src/Contracts/Sensitivity/Asymmetry.antt =====
-- What the two ways to change a classification allow.
use rda_data_director.Prelude.{
  String, ◌<◌, ◌≤◌, ◌≡◌, refl, Option, some, ok, err, value_error, arith,
}
use rda_data_director.Contracts.Sensitivity.{SensitivityClass, level_value, Classification, tighten}

-- `tighten` succeeds exactly when the new level is above the old one; it then sets that level and
-- keeps the human who established the classification, and otherwise it raises ValueError.
pub tighten_exact :
    (c : Classification) (l : SensitivityClass) (agent : String) (rationale : Option String)
    → (level_value c.level < level_value l
        → (c' : Classification) × (tighten c l agent rationale ≡ ok c')
          × (c'.level ≡ l)
          × (c'.established_by ≡ c.established_by)
          × (c'.established_by_agent ≡ some agent))
      × (level_value l ≤ level_value c.level → tighten c l agent rationale ≡ err value_error)
unfolding tighten
tighten_exact c l agent rationale = (
  λ h. (
    record {
      level = l;
      established_by = c.established_by;
      established_by_agent = some agent;
      rationale = rationale;
    },
    ground arith,
    refl,
    refl,
    refl,
  ),
  λ h. ground arith,
)
