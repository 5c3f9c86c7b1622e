-- ===== src/Contracts/Events/Tamper.antt =====
-- Tamper evidence: the newest event of a verified log pins every event before it.
use mathlib.Core.Path.{ap₂}
use rda_data_director.Prelude.{
  suc, ◌+◌, ◌≡◌, refl, sym, ◌∙◌, ap, subst, List, [], ◌∷◌, ◌++◌, Option, none, some, ok, arith,
  length, All, length-append,
}
use rda_data_director.Contracts.Primitives.{Digest}
use rda_data_director.Contracts.Events.{Event, verify_chain}
use rda_data_director.Contracts.Events.Chain.{
  Follows, IsChain, last_or, verify_chain_iff, IsChainFrom-parts,
}

-- No event of `a` shares its digest with another event of `b`.
abbrev pub NoCollision : (Event → Digest) → List Event → List Event → Type 0
NoCollision digest_of a b = All (λ x. All (λ y. digest_of x ≡ digest_of y → x ≡ y) b) a

All-parts {ℓ κ} :
    {A : Type ℓ} (P : A → Type κ) (xs ys : List A) → All P (xs ++ ys) → All P xs × All P ys
All-parts P [] ys h = (tt, h)
All-parts P (x ∷ xs) ys h = let (front, back) = All-parts P xs ys h.1 in ((h.0, front), back)

All-map {ℓ κ μ} :
    {A : Type ℓ} (P : A → Type κ) (Q : A → Type μ) (xs : List A)
    → ((x : A) → P x → Q x)
    → All P xs
    → All Q xs
All-map P Q [] f h = tt
All-map P Q (x ∷ xs) f h = (f x h.0, All-map P Q xs f h.1)

last_or-snoc :
    (before : Option Event) (xs : List Event) (x : Event) → last_or before (xs ++ x ∷ []) ≡ some x
last_or-snoc before [] x = refl
last_or-snoc before (y ∷ xs) x = last_or-snoc (some y) xs x

length-snoc {ℓ} : {A : Type ℓ} (xs : List A) (x : A) → length (xs ++ x ∷ []) ≡ suc (length xs)
length-snoc xs x = omega (arith, length-append xs (x ∷ []))

-- A list read from its newest event to its oldest.
abbrev oldest_first : List Event → List Event
oldest_first [] = []
oldest_first (x ∷ r) = oldest_first r ++ x ∷ []

oldest_first-snoc : (r : List Event) (x : Event) → oldest_first (r ++ x ∷ []) ≡ x ∷ oldest_first r
oldest_first-snoc [] x = refl
oldest_first-snoc (y ∷ r) x = ap (λ l. l ++ y ∷ []) (oldest_first-snoc r x)

newest_first : (xs : List Event) → (r : List Event) × (oldest_first r ≡ xs)
newest_first [] = ([], refl)
newest_first (x ∷ xs) =
    let (r, e) = newest_first xs in (r ++ x ∷ [], oldest_first-snoc r x ∙ ap (λ l. x ∷ l) e)

module _ (digest_of : Event → Digest) where
  links :
      (xs : List Event) (x e : Event)
      → IsChain digest_of ((xs ++ x ∷ []) ++ e ∷ [])
      → IsChain digest_of (xs ++ x ∷ [])
        × (e.sequence ≡ suc (suc (length xs)))
        × (e.prev_digest ≡ some (digest_of x))
  links xs x e h =
      let (front, back) = IsChainFrom-parts digest_of 0 none (xs ++ x ∷ []) (e ∷ []) h in
      let follows : Follows digest_of (0 + length (xs ++ x ∷ [])) (some x) e =
        subst (λ o. Follows digest_of (0 + length (xs ++ x ∷ [])) o e) (last_or-snoc none xs x)
          back.0 in
      (front, omega (arith, follows.0, length-snoc xs x), follows.1)

  same_link :
      (x y : Event) (p : Option Digest)
      → p ≡ some (digest_of x)
      → p ≡ some (digest_of y)
      → digest_of x ≡ digest_of y
  same_link x y p hx hy = cc

  pinned :
      (ra rb : List Event) (e : Event)
      → IsChain digest_of (oldest_first ra ++ e ∷ [])
      → IsChain digest_of (oldest_first rb ++ e ∷ [])
      → NoCollision digest_of (oldest_first ra) (oldest_first rb)
      → ra ≡ rb
  pinned [] [] e ha hb apart = refl
  pinned [] (y ∷ rb) e ha hb apart =
      absurd (omega (arith, ha.0, (links (oldest_first rb) y e hb).1))
  pinned (x ∷ ra) [] e ha hb apart =
      absurd (omega (arith, hb.0, (links (oldest_first ra) x e ha).1))
  pinned (x ∷ ra) (y ∷ rb) e ha hb apart =
      let (chain_a, _, prev_a) = links (oldest_first ra) x e ha in
      let (chain_b, _, prev_b) = links (oldest_first rb) y e hb in
      let (older, newest) = All-parts _ (oldest_first ra) (x ∷ []) apart in
      let same : x ≡ y =
        (All-parts _ (oldest_first rb) (y ∷ []) newest.0).1.0
          (same_link x y e.prev_digest prev_a prev_b) in
      let apart' : NoCollision digest_of (oldest_first ra) (oldest_first rb) =
        All-map _ _ (oldest_first ra) (λ z h. (All-parts _ (oldest_first rb) (y ∷ []) h).0) older in
      let chain_b' : IsChain digest_of (oldest_first rb ++ x ∷ []) =
        subst (λ z. IsChain digest_of (oldest_first rb ++ z ∷ [])) (sym same) chain_b in
      ap₂ (λ z r. z ∷ r) same (pinned ra rb x chain_a chain_b' apart')

  -- Two verified logs with the same newest event are equal, if no event of one shares its digest
  -- with a different event of the other: an older event cannot be altered, dropped, added or
  -- moved without a change to the newest.
  pub tamper_evident :
      (a b : List Event) (e : Event)
      → verify_chain digest_of (a ++ e ∷ []) ≡ ok tt
      → verify_chain digest_of (b ++ e ∷ []) ≡ ok tt
      → NoCollision digest_of a b
      → a ≡ b
  tamper_evident a b e ha hb apart =
      let (ra, ea) = newest_first a in
      let (rb, eb) = newest_first b in
      sym ea
      ∙ ap oldest_first (
          pinned ra rb e
            (subst (λ l. IsChain digest_of (l ++ e ∷ [])) (sym ea)
              ((verify_chain_iff digest_of (a ++ e ∷ [])).0 ha))
            (subst (λ l. IsChain digest_of (l ++ e ∷ [])) (sym eb)
              ((verify_chain_iff digest_of (b ++ e ∷ [])).0 hb))
            (subst (λ l. NoCollision digest_of l (oldest_first rb)) (sym ea)
              (subst (λ l. NoCollision digest_of a l) (sym eb) apart)))
      ∙ eb
