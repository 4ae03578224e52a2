-- ===== src/Common/Options.antt =====
-- Chains of steps that may fail, and memory as a function from pointers.
use Prim.Native.Nat.{ℕ}
use mathlib.Core.Bool.{Bool, true, false, false≢true}
use mathlib.Core.Option.{Option, none, some}
use package.skynet_server.Common.Tests.{◌==◌, if◌then◌else◌}
use skynet_server.Common.{◌≡◌, refl, sym}

infixl 5 ◌>>=◌ ◌>>◌
abbrev pub ◌>>=◌ {ℓ κ} : {A : Type ℓ} {B : Type κ} → Option A → (A → Option B) → Option B
none >>= f = none
some a >>= f = f a

abbrev pub ◌>>◌ {ℓ} : {B : Type ℓ} → Option (Unit {0}) → Option B → Option B
m >> k = m >>= λ _. k

-- A failed `assert` stops the program.
abbrev pub assert : Bool → Option (Unit {0})
assert true = some tt
assert false = none

abbrev pub is_none {ℓ} : {A : Type ℓ} → Option A → Bool
is_none none = true
is_none (some a) = false

abbrev pub is_some_eq : ℕ → Option ℕ → Bool
is_some_eq p none = false
is_some_eq p (some q) = p == q

abbrev pub update {ℓ} : {A : Type ℓ} → (ℕ → Option A) → ℕ → A → ℕ → Option A
update f p v q = if p == q then some v else f q

pub none_of {ℓ} : {A : Type ℓ} {o : Option A} → is_none o ≡ true → o ≡ none
none_of {o = none} e = refl
none_of {o = some a} e = absurd (false≢true e)

pub some_of {ℓ} : {A : Type ℓ} (o : Option A) → is_none o ≡ false → (a : A) × (o ≡ some a)
some_of none e = absurd (false≢true (sym e))
some_of (some a) e = (a, refl)

-- Options that hold the same value, whenever one of them holds any, are equal.
pub option_ext {ℓ} :
    {A : Type ℓ} (o p : Option A)
    → ((a : A) → o ≡ some a → p ≡ some a)
    → ((a : A) → p ≡ some a → o ≡ some a)
    → o ≡ p
option_ext none none f g = refl
option_ext none (some b) f g = g b refl
option_ext (some a) p f g = sym (f a refl)
