-- ===== src/Prelude/Results.antt =====
-- The result of Rust code: a value, an error that `?` passes on, or a panic (a failed `unwrap`, an
-- overflow under `overflow-checks = true`, a division by zero, `unreachable!`, an index out of range).
-- The runtime discards every change of a transaction that ends in an error or a panic.
use raydium_amm.Errors.{AmmError, ProgramError, custom}
use raydium_amm.Prelude.Tests.{if◌then◌else◌}
use mathlib.Core.Path.{◌≡◌, refl, subst}
use mathlib.Core.Logic.{◌≢◌}
use mathlib.Core.Bool.{Bool, true, false}
use mathlib.Core.Option.{Option, none, some}

pub data Outcome {ℓ} (A : Type ℓ) : Type ℓ where
  ok : A → Outcome A
  err : ProgramError → Outcome A
  panic : Outcome A

infixl 5 ◌>>=◌ ◌>>◌
unfoldable pub ◌>>=◌ {ℓ κ} : {A : Type ℓ} {B : Type κ} → Outcome A → (A → Outcome B) → Outcome B
ok a >>= f = f a
err e >>= f = err e
panic >>= f = panic

abbrev pub ◌>>◌ {ℓ} : {B : Type ℓ} → Outcome (Unit {0}) → Outcome B → Outcome B
m >> k = m >>= λ _. k

-- `return Err(AmmError::e.into())`
abbrev pub fail {ℓ} : {A : Type ℓ} → AmmError → Outcome A
fail e = err (custom e)

-- `if !test { return Err(e) }`
abbrev pub ensure : Bool → AmmError → Outcome (Unit {0})
ensure true e = ok tt
ensure false e = fail e

module _ {ℓ} {A : Type ℓ} where
  -- `o.unwrap()`
  abbrev pub unwrap : Option A → Outcome A
  unwrap (some a) = ok a
  unwrap none = panic

  -- `r.unwrap()` on a `Result`
  abbrev pub unwrap_result : Outcome A → Outcome A
  unwrap_result (ok a) = ok a
  unwrap_result (err e) = panic
  unwrap_result panic = panic

  -- `o.ok_or(e)?`
  abbrev pub ok_or : Option A → AmmError → Outcome A
  ok_or (some a) e = ok a
  ok_or none e = fail e

pub >>=-eq-ok {ℓ κ} :
    {A : Type ℓ} {B : Type κ} (m : Outcome A) (f : A → Outcome B) {b : B}
    → (m >>= f) ≡ ok b
    → (a : A) × (m ≡ ok a) × (f a ≡ ok b)
unfolding ◌>>=◌
>>=-eq-ok (ok a) f h = (a, refl, h)
>>=-eq-ok (err e) f h = cc
>>=-eq-ok panic f h = cc

-- For a chain whose steps stay shut: the value of each step of a successful run.
pub unwrap-eq-ok {ℓ} : {A : Type ℓ} (o : Option A) {a : A} → unwrap o ≡ ok a → o ≡ some a
unwrap-eq-ok (some b) h = cc
unwrap-eq-ok none h = cc

-- What neither fails nor panics has a value.
pub has_value {ℓ} :
    {A : Type ℓ} (m : Outcome A)
    → (m ≢ panic)
    → ((e : ProgramError) → m ≢ err e)
    → (a : A) × (m ≡ ok a)
has_value (ok a) h k = (a, refl)
has_value (err e) h k = absurd (k e refl)
has_value panic h k = absurd (h refl)

pub ok-injective {ℓ} : {A : Type ℓ} (a b : A) → ok a ≡ ok b → a ≡ b
ok-injective a b h = cc

-- What holds of the value, if there is one. With the rule for a bind, a proof about a `do` block has
-- one line for each of its steps.
pub data Ensures {ℓ κ} {A : Type ℓ} (P : A → Type κ) : Outcome A → Type (ℓ ⊔ κ) where
  of_ok : {a : A} → P a → Ensures P (ok a)
  of_err : {e : ProgramError} → Ensures P (err e)
  of_panic : Ensures P panic

module _ {ℓ κ μ} {A : Type ℓ} {B : Type κ} {P : B → Type μ} where
  pub bind-Ensures :
      (m : Outcome A) (f : A → Outcome B)
      → ((a : A) → m ≡ ok a → Ensures P (f a))
      → Ensures P (m >>= f)
  unfolding ◌>>=◌
  bind-Ensures (ok a) f h = h a refl
  bind-Ensures (err e) f h = of_err
  bind-Ensures panic f h = of_panic

-- A step whose value the claim does not need.
pub skip {ℓ κ μ} :
    {A : Type ℓ} {B : Type κ} {P : B → Type μ} (m : Outcome A) (f : A → Outcome B)
    → ((a : A) → Ensures P (f a))
    → Ensures P (m >>= f)
skip m f h = bind-Ensures m f (λ a _. h a)

pub ensures_value {ℓ κ} :
    {A : Type ℓ} {P : A → Type κ} (m : Outcome A) {a : A} → Ensures P m → m ≡ ok a → P a
ensures_value {P} (ok b) {a} (of_ok p) h = subst P (ok-injective b a h) p
ensures_value (err e) of_err h = cc
ensures_value panic of_panic h = cc

-- What does not depend on the value.
pub always {ℓ κ} : {A : Type ℓ} {P : Type κ} (m : Outcome A) → P → Ensures (λ _. P) m
always (ok a) h = of_ok h
always (err e) h = of_err
always panic h = of_panic

-- A chain whose first value is known.
pub after_ok {ℓ κ} :
    {A : Type ℓ} {B : Type κ} {m : Outcome A} (f : A → Outcome B) {a : A} {b : B}
    → m ≡ ok a
    → (m >>= f) ≡ ok b
    → f a ≡ ok b
unfolding ◌>>=◌
after_ok f {a} {b} known h = subst (λ n. (n >>= f) ≡ ok b) known h

-- A branch of an `if` is proved with what its test says.
pub if_Ensures {ℓ κ} :
    {A : Type ℓ} {P : A → Type κ} (test : Bool) (x y : Outcome A)
    → (test ≡ true → Ensures P x)
    → (test ≡ false → Ensures P y)
    → Ensures P (if test then x else y)
if_Ensures true x y h k = h refl
if_Ensures false x y h k = k refl

pub Ensures-map {ℓ κ μ} :
    {A : Type ℓ} {P : A → Type κ} {Q : A → Type μ} {m : Outcome A}
    → ((a : A) → P a → Q a)
    → Ensures P m
    → Ensures Q m
Ensures-map f (of_ok {a} p) = of_ok (f a p)
Ensures-map f of_err = of_err
Ensures-map f of_panic = of_panic
