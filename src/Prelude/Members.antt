-- ===== src/Prelude/Members.antt =====
-- Membership of a list that a test has thinned out.
use mathlib.Core.Path.{◌≡◌, refl, sym, ap, ◌∙◌}
use mathlib.Core.Bool.{Bool, true, false}
use mathlib.Core.List.{List, [], ◌∷◌, Memᴰ}
use mathlib.Core.List.Memᴰ
use mathlib.Core.List.Memᴰ.{head, tail}
use rda_data_director.Prelude.Lists.{keep_if}

pub Memᴰ-keep_if {ℓ} :
    {A : Type ℓ} {c : A} (p : A → Bool) (cs : List A)
    → Memᴰ c (keep_if p cs)
    → Memᴰ c cs × (p c ≡ true)
Memᴰ-keep_if p [] m = absurd (Memᴰ.not-nil m)
Memᴰ-keep_if {A = A} {c = c} p (d ∷ ds) m = by_test (p d) refl (Memᴰ-keep_if p ds) m
  where
    by_test :
        (b : Bool)
        → p d ≡ b
        → (Memᴰ c (keep_if p ds) → Memᴰ c ds × (p c ≡ true))
        → Memᴰ c (elim b [ true ↦ d ∷ keep_if p ds | false ↦ keep_if p ds ])
        → Memᴰ c (d ∷ ds) × (p c ≡ true)
    by_test true e below (head same) = (head same, ap p same ∙ e)
    by_test true e below (tail m) = let (place, holds) = below m in (tail place, holds)
    by_test false e below m = let (place, holds) = below m in (tail place, holds)

pub keep_if-Memᴰ {ℓ} :
    {A : Type ℓ} {c : A} (p : A → Bool) (cs : List A)
    → Memᴰ c cs
    → p c ≡ true
    → Memᴰ c (keep_if p cs)
keep_if-Memᴰ p [] m holds = absurd (Memᴰ.not-nil m)
keep_if-Memᴰ {A = A} {c = c} p (d ∷ ds) m holds =
    by_test (p d) refl (λ below. keep_if-Memᴰ p ds below holds) m
  where
    apart : true ≡ false → ⊥
    apart h = cc

    by_test :
        (b : Bool)
        → p d ≡ b
        → (Memᴰ c ds → Memᴰ c (keep_if p ds))
        → Memᴰ c (d ∷ ds)
        → Memᴰ c (elim b [ true ↦ d ∷ keep_if p ds | false ↦ keep_if p ds ])
    by_test true e below (head same) = head same
    by_test true e below (tail m) = tail (below m)
    by_test false e below (head same) = absurd (apart (sym holds ∙ ap p same ∙ e))
    by_test false e below (tail m) = below m
