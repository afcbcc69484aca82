-- ===== src/Prelude/ErrFree.antt =====
-- Code that panics or returns, but never returns an error.
use raydium_amm.Errors.{ProgramError}
use raydium_amm.Prelude.Results.{Outcome, ok, err, panic, ◌>>=◌, unwrap}
use raydium_amm.Prelude.Tests.{if◌then◌else◌}
use mathlib.Core.Path.{◌≡◌, refl}
use mathlib.Core.Logic.{◌≢◌}
use mathlib.Core.Bool.{Bool, true, false}
use mathlib.Core.Option.{Option, none, some}

abbrev pub IsErrFree {ℓ} : {A : Type ℓ} → Outcome A → Type ℓ
IsErrFree m = (e : ProgramError) → m ≢ err e

pub ok-IsErrFree {ℓ} : {A : Type ℓ} (a : A) → IsErrFree (ok a)
ok-IsErrFree a e h = cc

pub unwrap-IsErrFree {ℓ} : {A : Type ℓ} (o : Option A) → IsErrFree (unwrap o)
unwrap-IsErrFree none e h = cc
unwrap-IsErrFree (some a) e h = cc

pub bind-IsErrFree {ℓ κ} :
    {A : Type ℓ} {B : Type κ} (m : Outcome A) (f : A → Outcome B)
    → IsErrFree m
    → ((a : A) → IsErrFree (f a))
    → IsErrFree (m >>= f)
unfolding ◌>>=◌
bind-IsErrFree (ok a) f h k = k a
bind-IsErrFree (err e) f h k = absurd (h e refl)
bind-IsErrFree panic f h k = λ e p. cc

pub if-IsErrFree {ℓ} :
    {A : Type ℓ} (test : Bool) (x y : Outcome A)
    → IsErrFree x
    → IsErrFree y
    → IsErrFree (if test then x else y)
if-IsErrFree true x y h k = h
if-IsErrFree false x y h k = k

-- An error of a chain is one of its rest.
pub bind-eq-err {ℓ κ} :
    {A : Type ℓ} {B : Type κ} (m : Outcome A) (f : A → Outcome B) {e : ProgramError}
    → IsErrFree m
    → (m >>= f) ≡ err e
    → (a : A) × (m ≡ ok a) × (f a ≡ err e)
unfolding ◌>>=◌
bind-eq-err (ok a) f free h = (a, refl, h)
bind-eq-err (err e) f free h = absurd (free e refl)
bind-eq-err panic f free h = cc
