-- ===== src/Bytes/Fueled.antt =====
-- Calls that run on fuel: `none` if it runs out, else the outcome.
use mathlib.Core.Option.{Option, none, some}
use mathlib.Core.Bool.{Bool}
use favonius.Base.{Outcome, ok, err, panic, fail_if}

abbrev pub Fueled : Type 0 → Type 0 → Type 0
Fueled E A = Option (Outcome E A)

infixl 5 ◌>>=◌ ◌>>◌
abbrev pub ◌>>=◌ : {E A B : Type 0} → Fueled E A → (A → Fueled E B) → Fueled E B
none >>= f = none
some (ok a) >>= f = f a
some (err e) >>= f = some (err e)
some panic >>= f = some panic

abbrev pub ◌>>◌ : {E B : Type 0} → Fueled E (Unit {0}) → Fueled E B → Fueled E B
m >> k = m >>= λ _. k

abbrev pub lift : {E A : Type 0} → Outcome E A → Fueled E A
lift = some

abbrev pub fail_when : {E : Type 0} → Bool → E → Fueled E (Unit {0})
fail_when b e = some (fail_if b e)

abbrev pub pure : {E A : Type 0} → A → Fueled E A
pure a = some (ok a)
