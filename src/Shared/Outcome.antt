-- ===== src/Shared/Outcome.antt =====
-- What a piece of C code comes to: a value, a fault (an access through NULL, outside an object, or
-- an `int` overflow, all of them undefined in C), a hang (a loop or a lock that never ends), or the
-- end of the process by `exit`.
use Prim.Native.Nat.{ℕ, zero, suc}
use mathlib.Core.Logic.{◌⊎◌, inl, inr}
use mathlib.Core.Path.{◌≡◌, refl, ap, subst}
use mathlib.Core.Bool.{Bool, true, false}
use sisop_2012_2c.Shared.Tests.{if◌then◌else◌}
use mathlib.Core.Option.{Option, none, some}

pub data Outcome {ℓ} (A : Type ℓ) : Type ℓ where
  ok : A → Outcome A
  fault hang exits waits : Outcome A

infixl 5 ◌>>=◌ ◌>>◌
abbrev pub ◌>>=◌ {ℓ κ} : {A : Type ℓ} {B : Type κ} → Outcome A → (A → Outcome B) → Outcome B
ok a >>= f = f a
fault >>= f = fault
hang >>= f = hang
exits >>= f = exits
waits >>= f = waits

abbrev pub ◌>>◌ {ℓ} : {B : Type ℓ} → Outcome (Unit {0}) → Outcome B → Outcome B
m >> k = m >>= λ _. k

-- A pointer that is read through: NULL faults.
abbrev pub deref {ℓ} : {A : Type ℓ} → Option A → Outcome A
deref none = fault
deref (some a) = ok a

-- `sem_wait`
abbrev pub sem_wait : ℕ → Outcome ℕ
sem_wait zero = waits
sem_wait (suc n) = ok n

-- What holds of the value of a piece of code, if it has one.
pub record Holds {ℓ} {A : Type ℓ} (P : A → Type 0) (m : Outcome A) : Type ℓ where
  pub of_value : (a : A) → m ≡ ok a → P a

module _ {ℓ} {A : Type ℓ} where
  pub Holds-ok : {P : A → Type 0} (a : A) → P a → Holds P (ok a)
  Holds-ok {P = P} a p = record { of_value = λ b e. subst P (ap (value_or a) e) p }
    where
      value_or : A → Outcome A → A
      value_or default (ok c) = c
      value_or default _ = default

  pub Holds-of_ok : {P : A → Type 0} (m : Outcome A) (a : A) → m ≡ ok a → P a → Holds P m
  Holds-of_ok m a e p = rw e (Holds-ok a p)

  pub Holds-weaken :
      {P Q : A → Type 0} {m : Outcome A} → Holds P m → ((a : A) → P a → Q a) → Holds Q m
  Holds-weaken h w = record { of_value = λ a e. w a (h.of_value a e) }

  pub Holds-hang : {P : A → Type 0} → Holds P hang
  Holds-hang = record { of_value = λ a e. cc }

  pub Holds-waits : {P : A → Type 0} → Holds P waits
  Holds-waits = record { of_value = λ a e. cc }

  pub Holds-fault : {P : A → Type 0} → Holds P fault
  Holds-fault = record { of_value = λ a e. cc }

  pub Holds-exits : {P : A → Type 0} → Holds P exits
  Holds-exits = record { of_value = λ a e. cc }

  pub Holds-if :
      {P : A → Type 0} (b : Bool) {x y : Outcome A}
      → (b ≡ true → Holds P x)
      → (b ≡ false → Holds P y)
      → Holds P (if b then x else y)
  Holds-if true h k = h refl
  Holds-if false h k = k refl

module _ {ℓ κ} {A : Type ℓ} {B : Type κ} where
  -- The step of a code whose value has a property, which the rest relies on.
  pub Holds->>= :
      (P : A → Type 0) {Q : B → Type 0} (m : Outcome A) {f : A → Outcome B}
      → Holds P m
      → ((a : A) → P a → Holds Q (f a))
      → Holds Q (m >>= f)
  Holds->>= P (ok a) h k = k a (h.of_value a refl)
  Holds->>= P fault h k = record { of_value = λ b e. cc }
  Holds->>= P hang h k = record { of_value = λ b e. cc }
  Holds->>= P exits h k = record { of_value = λ b e. cc }
  Holds->>= P waits h k = record { of_value = λ b e. cc }

  -- A step whose value may be anything.
  pub Holds-after :
      {Q : B → Type 0} (m : Outcome A) {f : A → Outcome B}
      → ((a : A) → m ≡ ok a → Holds Q (f a))
      → Holds Q (m >>= f)
  Holds-after (ok a) k = k a refl
  Holds-after fault k = record { of_value = λ b e. cc }
  Holds-after hang k = record { of_value = λ b e. cc }
  Holds-after exits k = record { of_value = λ b e. cc }
  Holds-after waits k = record { of_value = λ b e. cc }

pub deref-eq-ok {ℓ} : {A : Type ℓ} (o : Option A) {a : A} → deref o ≡ ok a → o ≡ some a
deref-eq-ok none e = cc
deref-eq-ok {A = A} (some b) e = ap value e
  where
    value : Outcome A → Option A
    value (ok c) = some c
    value _ = none

-- `sem_wait` waits, or takes one.
pub sem_wait-cases : (n : ℕ) → (sem_wait n ≡ waits) ⊎ ((k : ℕ) × (n ≡ suc k) × (sem_wait n ≡ ok k))
sem_wait-cases zero = inl refl
sem_wait-cases (suc k) = inr (k, refl, refl)

module _ {ℓ κ} {A : Type ℓ} {B : Type κ} where
  pub >>=-cong :
      (m : Outcome A) (f g : A → Outcome B) → ((a : A) → f a ≡ g a) → (m >>= f) ≡ (m >>= g)
  >>=-cong (ok a) f g h = h a
  >>=-cong fault f g h = refl
  >>=-cong hang f g h = refl
  >>=-cong exits f g h = refl
  >>=-cong waits f g h = refl

pub >>=_assoc {ℓ κ μ} :
    {A : Type ℓ} {B : Type κ} {C : Type μ} (m : Outcome A) (f : A → Outcome B) (g : B → Outcome C)
    → ((m >>= f) >>= g) ≡ (m >>= λ a. f a >>= g)
>>=_assoc (ok a) f g = refl
>>=_assoc fault f g = refl
>>=_assoc hang f g = refl
>>=_assoc exits f g = refl
>>=_assoc waits f g = refl

-- A value with a property, or a fault: no hang, no wait, no exit.
abbrev pub Comes {ℓ} : {A : Type ℓ} → (A → Type 0) → Outcome A → Type 0
Comes P (ok a) = P a
Comes P fault = Unit
Comes P hang = ⊥
Comes P exits = ⊥
Comes P waits = ⊥

abbrev pub Any {ℓ} : {A : Type ℓ} → A → Type 0
Any a = Unit

module _ {ℓ κ} {A : Type ℓ} {B : Type κ} where
  pub Comes->>= :
      (P : A → Type 0) (Q : B → Type 0) (m : Outcome A) (f : A → Outcome B)
      → Comes P m
      → ((a : A) → P a → Comes Q (f a))
      → Comes Q (m >>= f)
  Comes->>= P Q (ok a) f h k = k a h
  Comes->>= P Q fault f h k = _
  Comes->>= P Q hang f h k = elim h [ ]
  Comes->>= P Q exits f h k = elim h [ ]
  Comes->>= P Q waits f h k = elim h [ ]

module _ {ℓ} {A : Type ℓ} where
  pub Comes-if :
      (P : A → Type 0) (b : Bool) (x y : Outcome A)
      → (b ≡ true → Comes P x)
      → (b ≡ false → Comes P y)
      → Comes P (if b then x else y)
  Comes-if P true x y h k = h refl
  Comes-if P false x y h k = k refl

  pub deref-Comes : (o : Option A) → Comes Any (deref o)
  deref-Comes none = _
  deref-Comes (some a) = _

-- The same as a record, whose arguments a proof need not repeat.
pub record Settles {ℓ} {A : Type ℓ} (P : A → Type 0) (m : Outcome A) : Type ℓ where
  pub comes : Comes P m

module _ {ℓ} {A : Type ℓ} {P : A → Type 0} where
  pub Settles-ok : (a : A) → P a → Settles P (ok a)
  Settles-ok a p = record { comes = p }

  pub Settles-fault : Settles P fault
  Settles-fault = record { comes = _ }

  pub Settles-if :
      (b : Bool) {x y : Outcome A}
      → (b ≡ true → Settles P x)
      → (b ≡ false → Settles P y)
      → Settles P (if b then x else y)
  Settles-if true h k = h refl
  Settles-if false h k = k refl

  -- the same where both sides are not computed before the test
  pub Settles-elim :
      (b : Bool) {x y : Outcome A}
      → (b ≡ true → Settles P x)
      → (b ≡ false → Settles P y)
      → Settles P (elim b as (λ t. Outcome A) [ true ↦ x | false ↦ y ])
  Settles-elim true h k = h refl
  Settles-elim false h k = k refl

module _ {ℓ κ} {A : Type ℓ} {B : Type κ} {Q : B → Type 0} where
  pub Settles->>= :
      (P : A → Type 0) (m : Outcome A) {f : A → Outcome B}
      → Settles P m
      → ((a : A) → m ≡ ok a → P a → Settles Q (f a))
      → Settles Q (m >>= f)
  Settles->>= P (ok a) h k = k a refl h.comes
  Settles->>= P fault h k = Settles-fault
  Settles->>= P hang h k = elim h.comes [ ]
  Settles->>= P exits h k = elim h.comes [ ]
  Settles->>= P waits h k = elim h.comes [ ]

module _ {ℓ} {A : Type ℓ} where
  pub deref-Settles : (o : Option A) → Settles Any (deref o)
  deref-Settles o = record { comes = deref-Comes o }
