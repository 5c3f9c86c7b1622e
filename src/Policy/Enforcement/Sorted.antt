-- ===== src/Policy/Enforcement/Sorted.antt =====
-- What the stable sort of the candidates keeps, and what it puts first.
use mathlib.Core.List.{Memᴰ}
use mathlib.Core.List.Memᴰ
use mathlib.Core.List.Memᴰ.{head, tail}
use rda_data_director.Prelude.{
  ℕ, ◌≤◌, sym, subst, if◌then◌else◌, Bool, true, false, List, [], ◌∷◌, arith, leb,
}
use rda_data_director.Policy.Enforcement.{Candidate, insert_by, sort_by}

module _ (key : Candidate → ℕ) where
  behind : {c d e : Candidate} {ds : List Candidate} → Memᴰ c (d ∷ ds) → Memᴰ c (d ∷ e ∷ ds)
  behind (head same) = head same
  behind (tail m) = tail (tail m)

  Memᴰ-insert_by :
      {c : Candidate} (d : Candidate) (ds : List Candidate)
      → Memᴰ c (insert_by key d ds)
      → Memᴰ c (d ∷ ds)
  Memᴰ-insert_by d [] m = m
  Memᴰ-insert_by {c} d (e ∷ ds) m = by_test (leb (key d) (key e)) (Memᴰ-insert_by d ds) m
    where
      by_test :
          (b : Bool)
          → (Memᴰ c (insert_by key d ds) → Memᴰ c (d ∷ ds))
          → Memᴰ c (if b then d ∷ e ∷ ds else e ∷ insert_by key d ds)
          → Memᴰ c (d ∷ e ∷ ds)
      by_test true below m = m
      by_test false below (head same) = tail (head same)
      by_test false below (tail m) = behind (below m)

  pub Memᴰ-sort_by : {c : Candidate} (cs : List Candidate) → Memᴰ c (sort_by key cs) → Memᴰ c cs
  Memᴰ-sort_by [] m = m
  Memᴰ-sort_by {c} (d ∷ cs) m = place (Memᴰ-sort_by cs) (Memᴰ-insert_by d (sort_by key cs) m)
    where
      place : (Memᴰ c (sort_by key cs) → Memᴰ c cs) → Memᴰ c (d ∷ sort_by key cs) → Memᴰ c (d ∷ cs)
      place below (head same) = head same
      place below (tail m) = tail (below m)

  -- The first of a list is not above the candidate.
  abbrev pub IsLedBelow : List Candidate → Candidate → Type 0
  IsLedBelow [] c = ⊥
  IsLedBelow (d ∷ ds) c = key d ≤ key c

  led-insert_by : (d : Candidate) (ds : List Candidate) → IsLedBelow (insert_by key d ds) d
  led-insert_by d [] = omega arith
  led-insert_by d (e ∷ ds) = ground arith

  led-insert_by_rest :
      (d c : Candidate) (ds : List Candidate) → IsLedBelow ds c → IsLedBelow (insert_by key d ds) c
  led-insert_by_rest d c [] led = absurd led
  led-insert_by_rest d c (e ∷ ds) led = ground arith

  pub led-sort_by :
      {c : Candidate} (cs : List Candidate) → Memᴰ c cs → IsLedBelow (sort_by key cs) c
  led-sort_by [] m = absurd (Memᴰ.not-nil m)
  led-sort_by (d ∷ cs) (head same) =
      subst (λ e. IsLedBelow (insert_by key d (sort_by key cs)) e) (sym same)
        (led-insert_by d (sort_by key cs))
  led-sort_by {c} (d ∷ cs) (tail m) = led-insert_by_rest d c (sort_by key cs) (led-sort_by cs m)
