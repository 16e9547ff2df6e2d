-- ===== src/Base/Failure.antt =====
-- What a call may come to. `LOG(FATAL)` and a failed `CHECK` throw, which is `fatal`; a loop that
-- does not end within the fuel that the model gives it is `diverges`.
use mathlib.Core.Path.{◌≡◌, refl, subst}
use mathlib.Core.Bool.{Bool, true, false}
use mathlib.Core.Logic.{◌≢◌, ◌⊎◌}
use Prim.Native.Nat.{ℕ}
use native.Mathlib.Omega.{arith}
use peli.Base.Tests.{◌==◌, if◌then◌else◌}
use mathlib.Core.Option.{Option, none, some}

pub data Outcome {ℓ} (A : Type ℓ) : Type ℓ where
  ok : A → Outcome A
  fatal : Outcome A
  diverges : Outcome A

-- `CHECK(b)`.
abbrev pub check : Bool → Outcome (Unit {0})
check false = fatal
check true = ok tt

module _ {ℓ} {A : Type ℓ} where
  abbrev pub or_fatal : Option A → Outcome A
  or_fatal none = fatal
  or_fatal (some a) = ok a

  infixl 5 ◌>>◌
  abbrev pub ◌>>◌ : Outcome (Unit {0}) → Outcome A → Outcome A
  ok u >> after = after
  fatal >> after = fatal
  diverges >> after = diverges

  pub >>-eq-ok :
      (test : Outcome (Unit {0})) (after : Outcome A) {out : A}
      → (test >> after) ≡ ok out
      → (test ≡ ok tt) × (after ≡ ok out)
  >>-eq-ok fatal after eq = cc
  >>-eq-ok diverges after eq = cc
  >>-eq-ok (ok tt) after eq = (refl, eq)

module _ {ℓ κ} {A : Type ℓ} {B : Type κ} where
  infixl 5 ◌>>=◌
  abbrev pub ◌>>=◌ : Outcome A → (A → Outcome B) → Outcome B
  diverges >>= go_on = diverges
  fatal >>= go_on = fatal
  ok value >>= go_on = go_on value

  -- What runs on and returns has returned before.
  pub >>=-eq-ok :
      (first : Outcome A) (go_on : A → Outcome B) {out : B}
      → (first >>= go_on) ≡ ok out
      → (value : A) × (first ≡ ok value) × (go_on value ≡ ok out)
  >>=-eq-ok diverges go_on eq = cc
  >>=-eq-ok fatal go_on eq = cc
  >>=-eq-ok (ok value) go_on eq = (value, refl, eq)

-- `CHECK_EQ(m, n)` on numbers.
pub check_eq :
    (m n : ℕ) → ((m ≡ n) × (check (m == n) ≡ ok tt)) ⊎ ((m ≢ n) × (check (m == n) ≡ fatal))
check_eq m n = ground arith

pub check_eq_of_eq : (m n : ℕ) → m ≡ n → check (m == n) ≡ ok tt
check_eq_of_eq m n h = ground arith

-- The call ends within its fuel, and what it returns has `P`; it may still throw.
abbrev pub Ensures {ℓ} : {A : Type ℓ} → (A → Type 0) → Outcome A → Type 0
Ensures P (ok a) = P a
Ensures P fatal = Unit
Ensures P diverges = ⊥

module _ {ℓ κ} {A : Type ℓ} {B : Type κ} where
  pub Ensures->>= :
      (P : A → Type 0) (Q : B → Type 0) (first : Outcome A) (go_on : A → Outcome B)
      → Ensures P first
      → ((value : A) → P value → Ensures Q (go_on value))
      → Ensures Q (first >>= go_on)
  Ensures->>= P Q (ok value) go_on h next = next value h
  Ensures->>= P Q fatal go_on h next = tt
  Ensures->>= P Q diverges go_on h next = absurd h

pub Ensures->> {ℓ} :
    {A : Type ℓ} (Q : A → Type 0) (b : Bool) (after : Outcome A)
    → (b ≡ true → Ensures Q after)
    → Ensures Q (check b >> after)
Ensures->> Q true after h = h refl
Ensures->> Q false after h = tt

pub Ensures-weaken {ℓ} :
    {A : Type ℓ} (P Q : A → Type 0) (o : Outcome A)
    → Ensures P o
    → ((value : A) → P value → Q value)
    → Ensures Q o
Ensures-weaken P Q (ok value) h f = f value h
Ensures-weaken P Q fatal h f = tt
Ensures-weaken P Q diverges h f = absurd h

-- What the call returns, if it returns, has `P`.
abbrev pub IfOk {ℓ} : {A : Type ℓ} → (A → Type 0) → Outcome A → Type 0
IfOk P (ok a) = P a
IfOk P fatal = Unit
IfOk P diverges = Unit

pub IfOk-ok {ℓ} :
    {A : Type ℓ} (P : A → Type 0) (o : Outcome A) (value : A) → IfOk P o → o ≡ ok value → P value
IfOk-ok P (ok a) value h e = let same : a ≡ value = cc in subst P same h
IfOk-ok P fatal value h e = absurd (cc)
IfOk-ok P diverges value h e = absurd (cc)

pub IfOk-weaken {ℓ} :
    {A : Type ℓ} (P Q : A → Type 0) (o : Outcome A)
    → IfOk P o
    → ((value : A) → P value → Q value)
    → IfOk Q o
IfOk-weaken P Q (ok value) h f = f value h
IfOk-weaken P Q fatal h f = tt
IfOk-weaken P Q diverges h f = tt

pub IfOk->>= {ℓ κ} :
    {A : Type ℓ} {B : Type κ} (P : A → Type 0) (Q : B → Type 0) (first : Outcome A)
    (go_on : A → Outcome B)
    → IfOk P first
    → ((value : A) → P value → IfOk Q (go_on value))
    → IfOk Q (first >>= go_on)
IfOk->>= P Q (ok value) go_on h next = next value h
IfOk->>= P Q fatal go_on h next = tt
IfOk->>= P Q diverges go_on h next = tt

pub IfOk->> {ℓ} :
    {A : Type ℓ} (Q : A → Type 0) (b : Bool) (after : Outcome A)
    → (b ≡ true → IfOk Q after)
    → IfOk Q (check b >> after)
IfOk->> Q true after h = h refl
IfOk->> Q false after h = tt

pub IfOk-if {ℓ} :
    {A : Type ℓ} (P : A → Type 0) (b : Bool) (x y : Outcome A)
    → (b ≡ true → IfOk P x)
    → (b ≡ false → IfOk P y)
    → IfOk P (if b then x else y)
IfOk-if P true x y h k = h refl
IfOk-if P false x y h k = k refl
