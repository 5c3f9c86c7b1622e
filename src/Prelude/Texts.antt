-- ===== src/Prelude/Texts.antt =====
-- Texts by their characters.
use Prim.Native.Nat.{ℕ, zero, suc}
use Prim.Native.Char.{code}
use Prim.Native.String.{String}
use mathlib.Core.Bool.{true, false}
use mathlib.Core.List.{List, [], ◌∷◌}
use rda_data_director.Prelude.Tests.{◌==◌}

abbrev pub add_char : (String → String) → List String → List String
add_char f [] = f String.[] ∷ []
add_char f (part ∷ parts) = f part ∷ parts

-- `text.split(mark)` for a mark of one character, given by its code point
abbrev pub split_on : ℕ → String → List String
split_on mark String.[] = String.[] ∷ []
split_on mark (String.◌∷◌ c s) =
    let parts = split_on mark s in
    elim (code c == mark) [
      | true ↦ String.[] ∷ parts
      | false ↦ add_char (λ part. String.◌∷◌ c part) parts
    ]

-- The code points of a text.
abbrev pub codes : String → List ℕ
codes String.[] = []
codes (String.◌∷◌ c s) = code c ∷ codes s

-- `text[:n]`
abbrev pub take_chars : ℕ → String → String
take_chars zero s = String.[]
take_chars (suc n) String.[] = String.[]
take_chars (suc n) (String.◌∷◌ c s) = String.◌∷◌ c (take_chars n s)
