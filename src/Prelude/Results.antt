-- ===== src/Prelude/Results.antt =====
-- Results of code that may raise: packages/datadirector/src/datadirector/errors.py with the
-- exceptions of the other modules and those of Python that the code raises itself.
use mathlib.Core.Path.{◌≡◌, refl, ap}
use mathlib.Core.Bool.{Bool, true, false}

pub data Error : Type 0 where
  value_error key_error permission_error recursion_error : Error
  configuration_error chain_integrity_error authority_error plugin_error credential_error : Error
  external_service_error extraction_error concurrent_append_error unknown_event_kind : Error
  policy_halt preference_unsatisfiable capability_unavailable budget_exceeded : Error
  not_visible reconciliation_required not_ready job_blocked other_exception : Error

pub data Result {ℓ} (A : Type ℓ) : Type ℓ where
  ok : A → Result A
  err : Error → Result A

module _ {ℓ κ} {X : Type ℓ} {Y : Type κ} where
  infixl 5 ◌>>=◌
  -- A statement that raises ends the block.
  abbrev pub ◌>>=◌ : Result X → (X → Result Y) → Result Y
  ◌>>=◌ (err raised) next = err raised
  ◌>>=◌ (ok value) next = next value

  -- A block that ends well has run its first statement well.
  pub bind_inversion :
      (first : Result X) (next : X → Result Y) {y : Y}
      → (first >>= next) ≡ ok y
      → (x : X) × (first ≡ ok x) × (next x ≡ ok y)
  bind_inversion (err raised) next ends = cc
  bind_inversion (ok x) next ends = (x, refl, ends)

infixl 5 ◌>>◌
-- A check: the statements after it run if it does not raise.
abbrev pub ◌>>◌ {ℓ} : {Y : Type ℓ} → Result (Unit {0}) → Result Y → Result Y
check >> next = check >>= λ _. next

-- `if test: raise raised`
abbrev pub raise_if : Bool → Error → Result (Unit {0})
raise_if test raised = elim test [ true ↦ err raised | false ↦ ok tt ]

-- A first statement with a known value is left out.
pub bind_ok {ℓ κ} :
    {X : Type ℓ} {Y : Type κ} (first : Result X) {x : X} (next : X → Result Y)
    → first ≡ ok x
    → (first >>= next) ≡ next x
bind_ok first next known = ap (λ m. m >>= next) known

pub >>=-cong {ℓ κ} :
    {A : Type ℓ} {B : Type κ} (m : Result A) (f g : A → Result B)
    → ((a : A) → m ≡ ok a → f a ≡ g a)
    → (m >>= f) ≡ (m >>= g)
>>=-cong (ok a) f g same = same a refl
>>=-cong (err e) f g same = refl

pub >>=_assoc {ℓ κ μ} :
    {A : Type ℓ} {B : Type κ} {C : Type μ} (m : Result A) (f : A → Result B) (g : B → Result C)
    → ((m >>= f) >>= g) ≡ (m >>= λ a. f a >>= g)
>>=_assoc (ok a) f g = refl
>>=_assoc (err e) f g = refl

pub raise_if-passes :
    (test : Bool) (e : Error) (u : Unit {0}) → raise_if test e ≡ ok u → test ≡ false
raise_if-passes true e u h = cc
raise_if-passes false e u h = refl

-- A block that ends well after a check has passed it.
pub raise_if_inversion {ℓ} :
    {Y : Type ℓ} (test : Bool) (e : Error) (next : Result Y) {y : Y}
    → (raise_if test e >> next) ≡ ok y
    → (test ≡ false) × (next ≡ ok y)
raise_if_inversion true e next ends = cc
raise_if_inversion false e next ends = (refl, ends)
