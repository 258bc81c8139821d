-- ===== src/Prelude/Returns.antt =====
-- Total correctness: a computation that may fail does return, and what it returns satisfies `P`; and
-- partial correctness, `Ensures`: what it returns, if it does, satisfies `P`.
use mathlib.Core.Path.{◌≡◌, refl}
use mathlib.Core.Bool.{Bool, true, false}
use mathlib.Core.Option.{Option, none, some}
use http_add_on.Prelude.Tests.{◌>>=◌, if◌then◌else◌}

module _ {A : Type 0} where
  abbrev pub Returns : Option A → (A → Type 0) → Type 0
  Returns none P = ⊥
  Returns (some a) P = P a

  abbrev pub Ensures : Option A → (A → Type 0) → Type 0
  Ensures none P = Unit
  Ensures (some a) P = P a

  pub Ensures-eq : (m : Option A) (P : A → Type 0) (a : A) → Ensures m P → m ≡ some a → P a
  Ensures-eq m P a h e = rw e at h

  pub Ensures_any : (m : Option A) → Ensures m (λ a. Unit {0})
  Ensures_any none = tt
  Ensures_any (some a) = tt

  pub Ensures_self : (m : Option A) → Ensures m (λ a. m ≡ some a)
  Ensures_self none = tt
  Ensures_self (some a) = refl

  pub Ensures-if :
      (P : A → Type 0) (b : Bool) (m n : Option A)
      → (b ≡ true → Ensures m P)
      → (b ≡ false → Ensures n P)
      → Ensures (if b then m else n) P
  Ensures-if P true m n km kn = km refl
  Ensures-if P false m n km kn = kn refl

  pub Returns-if :
      (P : A → Type 0) (b : Bool) (m n : Option A)
      → (b ≡ true → Returns m P)
      → (b ≡ false → Returns n P)
      → Returns (if b then m else n) P
  Returns-if P true m n km kn = km refl
  Returns-if P false m n km kn = kn refl

  pub Ensures-imp :
      (m : Option A) (P Q : A → Type 0) → Ensures m P → ((a : A) → P a → Q a) → Ensures m Q
  Ensures-imp none P Q h k = tt
  Ensures-imp (some a) P Q h k = k a h

  pub Returns-imp :
      (m : Option A) (P Q : A → Type 0) → Returns m P → ((a : A) → P a → Q a) → Returns m Q
  Returns-imp none P Q h k = absurd h
  Returns-imp (some a) P Q h k = k a h

  pub Returns-eq : (m : Option A) (P : A → Type 0) → Returns m P → (a : A) × (m ≡ some a) × P a
  Returns-eq none P h = absurd h
  Returns-eq (some a) P h = (a, refl, h)

module _ {A B : Type 0} where
  pub Ensures-bind :
      (m : Option A) (f : A → Option B) (P : A → Type 0) (Q : B → Type 0)
      → Ensures m P
      → ((a : A) → P a → Ensures (f a) Q)
      → Ensures (m >>= f) Q
  Ensures-bind none f P Q h k = tt
  Ensures-bind (some a) f P Q h k = k a h

  pub Returns-bind :
      (m : Option A) (f : A → Option B) (P : A → Type 0) (Q : B → Type 0)
      → Returns m P
      → ((a : A) → P a → Returns (f a) Q)
      → Returns (m >>= f) Q
  Returns-bind none f P Q h k = absurd h
  Returns-bind (some a) f P Q h k = k a h
