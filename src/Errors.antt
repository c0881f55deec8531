-- ===== src/Errors.antt =====
-- The error categories of ara2-bridge-core/src/error.rs, and results that carry them.
use ara2_bridge.Base.{
  ◌≡◌, refl, ◌↔◌, ◌⊎◌, inl, inr, String, Bool, true, false, not, Option, none, some,
}

-- Failures of archive transport and decoding.
pub data ArchiveError : Type 0 where
  range_overflow out_of_bounds invalid_progress : ArchiveError
  transport decode invalid_filter : String → ArchiveError

pub data CompanionError : Type 0 where
  discovery binding companion_lifecycle unsupported_platform : String → CompanionError

pub data AraError : Type 0 where
  abi invalid_argument invalid_state invalid_thread unsupported peer : String → AraError
  archive : ArchiveError → AraError
  companion : CompanionError → AraError
  poisoned archive_too_large_for_target : AraError

-- `Result<A, E>`; each component names its error type.
pub data Result {ℓ} (E : Type 0) (A : Type ℓ) : Type ℓ where
  ok : A → Result E A
  err : E → Result E A

-- The `?` operator.
infixl 5 ◌>>=◌ ◌>>◌
abbrev pub ◌>>=◌ {ℓ κ} :
    {E : Type 0} {A : Type ℓ} {B : Type κ} → Result E A → (A → Result E B) → Result E B
ok a >>= f = f a
err e >>= f = err e

abbrev pub ◌>>◌ {ℓ κ} :
    {E : Type 0} {A : Type ℓ} {B : Type κ} → Result E A → Result E B → Result E B
m >> k = m >>= λ _. k

-- An early return of `e` unless the test passes.
abbrev pub guard : {E : Type 0} → Bool → E → Result E (Unit {0})
guard true e = ok tt
guard false e = err e

-- `Option::ok_or`.
abbrev pub ok_or {ℓ} : {E : Type 0} {A : Type ℓ} → Option A → E → Result E A
ok_or none e = err e
ok_or (some a) e = ok a

-- `Result::is_ok`.
abbrev pub is_ok {ℓ} : {E : Type 0} {A : Type ℓ} → Result E A → Bool
is_ok (ok _) = true
is_ok (err _) = false

-- `Result::map`.
abbrev pub map_ok {ℓ κ} : {E : Type 0} {A : Type ℓ} {B : Type κ} → (A → B) → Result E A → Result E B
map_ok f (ok a) = ok (f a)
map_ok f (err e) = err e

-- A result is one or the other.
pub Result-cases {ℓ} :
    {E : Type 0} {A : Type ℓ} (r : Result E A) → ((a : A) × (r ≡ ok a)) ⊎ ((e : E) × (r ≡ err e))
Result-cases (ok a) = inl (a, refl)
Result-cases (err e) = inr (e, refl)

-- Both parts of a chain that succeeds did.
pub ok_bind {ℓ κ} :
    {E : Type 0} {A : Type ℓ} {B : Type κ} (m : Result E A) (f : A → Result E B) {b : B}
    → (m >>= f) ≡ ok b
    → (a : A) × (m ≡ ok a) × (f a ≡ ok b)
ok_bind (ok a) f e = (a, refl, e)
ok_bind (err _) f e = cc

pub map_ok-ok_inv {ℓ κ} :
    {E : Type 0} {A : Type ℓ} {B : Type κ} (f : A → B) (r : Result E A) {b : B}
    → map_ok f r ≡ ok b
    → (a : A) × (r ≡ ok a) × (f a ≡ b)
map_ok-ok_inv f (ok a) e = (a, refl, cc)
map_ok-ok_inv f (err _) e = cc

-- A chain after a guard succeeds exactly if the test passes and the rest succeeds.
pub guard_bind {ℓ} :
    {E : Type 0} {A : Type ℓ} (b : Bool) (e : E) (k : Result E A) {a : A}
    → ((guard b e >> k) ≡ ok a) ↔ ((b ≡ true) × (k ≡ ok a))
guard_bind true e k = (λ f. (refl, f), λ (_, f). f)
guard_bind false e k = (λ f. cc, λ (f, _). cc)

pub ok_or-ok_inv {ℓ} :
    {A : Type ℓ} (o : Option A) (x : AraError) {a : A}
    → ◌≡◌ {A = Result AraError A} (ok_or o x) (ok a)
    → o ≡ some a
ok_or-ok_inv (some b) x e = cc
ok_or-ok_inv none x e = cc

pub ok_or-err_inv {ℓ} :
    {A : Type ℓ} (o : Option A) (x : AraError) {y : AraError}
    → ◌≡◌ {A = Result AraError A} (ok_or o x) (err y)
    → o ≡ none
ok_or-err_inv (some b) x e = cc
ok_or-err_inv none x e = refl

pub guard-err_inv : (b : Bool) (x : AraError) {y : AraError} → guard b x ≡ err y → b ≡ false
guard-err_inv true x e = cc
guard-err_inv false x e = refl

pub not-true_iff : (b : Bool) → (not b ≡ true) ↔ (b ≡ false)
not-true_iff true = (λ e. cc, λ e. cc)
not-true_iff false = (λ e. refl, λ e. refl)
