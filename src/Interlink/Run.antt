-- ===== src/Interlink/Run.antt =====
-- What a call of `Interlink` comes to. Nothing here models code.
use mathlib.Core.Path.{subst}
use atlas_net.Prelude.{◌≡◌, refl, Bool, true, false, Option, some, none, if◌then◌else◌}
use atlas_net.Bytes.Result.{Error}

-- It returns, an assertion fails, an exception leaves it, or C++ does not say what it does.
pub data Run {ℓ} (A : Type ℓ) : Type ℓ where
  done : A → Run A
  aborted : Run A
  threw : Error → Run A
  undefined_run : Run A

infixl 5 ◌>>=◌
abbrev pub ◌>>=◌ {ℓ κ} : {A : Type ℓ} {B : Type κ} → Run A → (A → Run B) → Run B
done a >>= f = f a
aborted >>= f = aborted
threw e >>= f = threw e
undefined_run >>= f = undefined_run

-- What holds of the result, where there is one.
abbrev pub After {ℓ κ} : {A : Type ℓ} → (A → Type κ) → Run A → Type κ
After P (done a) = P a
After P aborted = Unit
After P (threw e) = Unit
After P undefined_run = Unit

pub After-bind {ℓ κ μ ν} :
    {A : Type ℓ} {B : Type κ} (P : A → Type μ) (Q : B → Type ν) (m : Run A) (k : A → Run B)
    → After P m
    → ((a : A) → P a → After Q (k a))
    → After Q (m >>= k)
After-bind P Q (done a) k h g = g a h
After-bind P Q aborted k h g = tt
After-bind P Q (threw e) k h g = tt
After-bind P Q undefined_run k h g = tt

pub After-done {ℓ κ} :
    {A : Type ℓ} (P : A → Type κ) (m : Run A) (a : A) → After P m → m ≡ done a → P a
After-done P m a h e = subst (After P) e h

pub After-any {ℓ} : {A : Type ℓ} (m : Run A) → After (λ a. Unit {0}) m
After-any (done a) = tt
After-any aborted = tt
After-any (threw e) = tt
After-any undefined_run = tt

-- A test, and a search, with what each outcome says.
pub After-if {ℓ κ} :
    {A : Type ℓ} (P : A → Type κ) (b : Bool) (m n : Run A)
    → (b ≡ true → After P m)
    → (b ≡ false → After P n)
    → After P (if b then m else n)
After-if P true m n h g = h refl
After-if P false m n h g = g refl

pub After-option {ℓ κ μ} :
    {A : Type ℓ} {B : Type κ} (P : A → Type μ) (o : Option B) (m : Run A) (k : B → Run A)
    → (o ≡ none → After P m)
    → ((b : B) → o ≡ some b → After P (k b))
    → After P (elim o [ none ↦ m | some b ↦ k b ])
After-option P none m k h g = h refl
After-option P (some b) m k h g = g b refl

-- The branch that is taken.
pub if-true {ℓ} : {A : Type ℓ} {b : Bool} (m n : A) → b ≡ true → (if b then m else n) ≡ m
if-true m n e = rw e refl

pub if-false {ℓ} : {A : Type ℓ} {b : Bool} (m n : A) → b ≡ false → (if b then m else n) ≡ n
if-false m n e = rw e refl

pub elim-none {ℓ κ} :
    {A : Type ℓ} {B : Type κ} {o : Option B} (m : A) (k : B → A)
    → o ≡ none
    → (elim o [ none ↦ m | some b ↦ k b ]) ≡ m
elim-none m k e = rw e refl

pub elim-some {ℓ κ} :
    {A : Type ℓ} {B : Type κ} {o : Option B} (m : A) (k : B → A) (b : B)
    → o ≡ some b
    → (elim o [ none ↦ m | some b' ↦ k b' ]) ≡ k b
elim-some m k b e = rw e refl

pub bind-done {ℓ κ} :
    {A : Type ℓ} {B : Type κ} {m : Run A} (k : A → Run B) (a : A) → m ≡ done a → (m >>= k) ≡ k a
bind-done k a e = rw e refl

pub bind_ext {ℓ κ} :
    {A : Type ℓ} {B : Type κ} (m : Run A) (f g : A → Run B)
    → ((a : A) → f a ≡ g a)
    → (m >>= f) ≡ (m >>= g)
bind_ext (done a) f g h = h a
bind_ext aborted f g h = refl
bind_ext (threw e) f g h = refl
bind_ext undefined_run f g h = refl
