-- ===== src/Contracts/Primitives/Checksum.antt =====
-- `Orcid(...)` and `orcid_check_digit` of primitives.py. Which code points are decimal digits, and of
-- what value, is Python's Unicode database: `decimal` is a parameter.
use rda_data_director.Prelude.{
  codes, ℕ, ◌+◌, ◌-◌, ◌*◌, ◌%◌, ◌≤◌, ◌≡◌, ◌≢◌, refl, ap, sym, ◌∙◌, String, Bool, true, false, ◌&&◌,
  ◌||◌, List, [], ◌∷◌, ◌++◌, Option, none, some, Result, ok, err, value_error, arith, ◌==◌, all,
  if◌then◌else◌,
}
use rda_data_director.Contracts.Primitives.{Orcid}

-- The loop of `orcid_check_digit`.
unfoldable pub total_from : ℕ → List ℕ → ℕ
total_from total [] = total
total_from total (d ∷ ds) = total_from ((total + d) * 2) ds

unfoldable pub check_digit : List ℕ → ℕ
unfolding total_from
check_digit ds = (12 - total_from 0 ds % 11) % 11

abbrev dash : ℕ
dash = 45

-- `"X" if result == 10 else str(result)`, as a code point
abbrev check_character : ℕ → ℕ
check_character n = if n == 10 then 88 else 48 + n

-- `v[:-1]`
abbrev pub init : List ℕ → List ℕ
init [] = []
init (c ∷ []) = []
init (c ∷ d ∷ cs) = c ∷ init (d ∷ cs)

module _ (decimal : ℕ → Option ℕ) where
  abbrev is_digit : ℕ → Bool
  is_digit c = elim (decimal c) [ none ↦ false | some n ↦ true ]

  -- The pattern `\d{4}-\d{4}-\d{4}-\d{3}[\dX]`.
  abbrev pub is_well_formed : List ℕ → Bool
  is_well_formed (a ∷ b ∷ c ∷ d ∷ s ∷ e ∷ f ∷ g ∷ h ∷ t ∷ i ∷ j ∷ k ∷ l ∷ u ∷ m ∷ n ∷ o ∷ p ∷ []) =
      all (λ x. x == dash) (s ∷ t ∷ u ∷ [])
      && all is_digit (a ∷ b ∷ c ∷ d ∷ e ∷ f ∷ g ∷ h ∷ i ∷ j ∷ k ∷ l ∷ m ∷ n ∷ o ∷ [])
      && (is_digit p || p == 88)
  is_well_formed _ = false

  -- `int(ch)` for each character but the dashes; after the pattern, each of them is a digit.
  abbrev pub digits : List ℕ → List ℕ
  digits [] = []
  digits (c ∷ cs) =
      let rest = digits cs in
      if c == dash then rest else elim (decimal c) [ none ↦ rest | some n ↦ n ∷ rest ]

  abbrev pub has_last : List ℕ → ℕ → Bool
  has_last [] x = false
  has_last (c ∷ []) x = c == x
  has_last (c ∷ d ∷ cs) x = has_last (d ∷ cs) x

  unfoldable pub is_orcid : List ℕ → Bool
  unfolding check_digit
  is_orcid cs = is_well_formed cs && has_last cs (check_character (check_digit (digits (init cs))))

  -- `Orcid(value=v)`
  unfoldable pub construct_orcid : String → Result Orcid
  unfolding is_orcid
  construct_orcid v = if is_orcid (codes v) then ok (record { value = v }) else err value_error

-- Two accumulators that differ modulo 11 differ after the same digits.
total_from-differ :
    (s t : ℕ) (ds : List ℕ) → s % 11 ≢ t % 11 → total_from s ds % 11 ≢ total_from t ds % 11
unfolding total_from
total_from-differ s t [] h = h
total_from-differ s t (d ∷ ds) h =
    total_from-differ ((s + d) * 2) ((t + d) * 2) ds (λ e. h (omega arith))

total_from-append :
    (t : ℕ) (xs ys : List ℕ) → total_from t (xs ++ ys) ≡ total_from (total_from t xs) ys
unfolding total_from
total_from-append t [] ys = refl
total_from-append t (x ∷ xs) ys = total_from-append ((t + x) * 2) xs ys

check_digit-differ :
    (xs ys : List ℕ) → total_from 0 xs % 11 ≢ total_from 0 ys % 11 → check_digit xs ≢ check_digit ys
unfolding check_digit
check_digit-differ xs ys h e = h (omega arith)

-- The check digit catches the two common slips: one digit typed wrong, and two neighbouring digits
-- that differ typed in the wrong order. In both cases the number that was meant has another check
-- digit.
pub check_digit-catches :
    (front back : List ℕ) (a b : ℕ)
    → a ≤ 9
    → b ≤ 9
    → a ≢ b
    → (check_digit (front ++ a ∷ back) ≢ check_digit (front ++ b ∷ back))
      × (check_digit (front ++ a ∷ b ∷ back) ≢ check_digit (front ++ b ∷ a ∷ back))
unfolding total_from
check_digit-catches front back a b ha hb differ =
    let t = total_from 0 front in
    (
      check_digit-differ (front ++ a ∷ back) (front ++ b ∷ back) (λ e.
          total_from-differ ((t + a) * 2) ((t + b) * 2) back (λ k. differ (omega arith))
            (ap (λ n. n % 11) (sym (total_from-append 0 front (a ∷ back)))
              ∙ e
              ∙ ap (λ n. n % 11) (total_from-append 0 front (b ∷ back)))),
      check_digit-differ (front ++ a ∷ b ∷ back) (front ++ b ∷ a ∷ back) (λ e.
          total_from-differ (((t + a) * 2 + b) * 2) (((t + b) * 2 + a) * 2) back
            (λ k. differ (omega arith))
            (ap (λ n. n % 11) (sym (total_from-append 0 front (a ∷ b ∷ back)))
              ∙ e
              ∙ ap (λ n. n % 11) (total_from-append 0 front (b ∷ a ∷ back)))),
    )
