-- ===== src/Prelude/Io.antt =====
-- Go's error values, and code with effects: a call takes a state to an outcome and the state
-- after it. A panic (a nil dereference or a failed type assertion) is an outcome of its own.
use Prim.Native.String.{String}
use mathlib.Core.Path.{◌≡◌, refl}
use mathlib.Core.Bool.{Bool, true, false}

-- What `apierrors.IsNotFound`, `IsConflict` and `IsAlreadyExists` tell apart. An error that is no
-- answer of the Kubernetes API, such as one made by `fmt.Errorf`, is `unknown`.
pub data Reason : Type 0 where
  unknown not_found conflict already_exists : Reason

pub record Error : Type 0 where
  pub reason : Reason
  -- what `err.Error()` returns
  pub message : String

-- `errors.New` and `fmt.Errorf`
abbrev pub new_error : String → Error
new_error text = record { reason = unknown; message = text }

abbrev pub is_not_found : Error → Bool
is_not_found e = elim (e.reason) [ not_found ↦ true | _ ↦ false ]

abbrev pub is_conflict : Error → Bool
is_conflict e = elim (e.reason) [ conflict ↦ true | _ ↦ false ]

abbrev pub is_already_exists : Error → Bool
is_already_exists e = elim (e.reason) [ already_exists ↦ true | _ ↦ false ]

-- A value and a nil error, or an error.
pub data Result (A : Type 0) : Type 0 where
  value : A → Result A
  error : Error → Result A

pub data Outcome (A : Type 0) : Type 0 where
  ok : A → Outcome A
  fail : Error → Outcome A
  panic : Outcome A

-- A call of code outside the repository: it answers, or gives an error.
abbrev pub Call : Type 0 → Type 0 → Type 0
Call W A = W → Result A × W

abbrev pub Io : Type 0 → Type 0 → Type 0
Io S A = S → Outcome A × S

abbrev pub of_result : {A : Type 0} → Result A → Outcome A
of_result (value a) = ok a
of_result (error e) = fail e

abbrev pub pure : {S A : Type 0} → A → Io S A
pure a s = (ok a, s)

abbrev pub raise : {S A : Type 0} → Error → Io S A
raise e s = (fail e, s)

abbrev pub crash : {S A : Type 0} → Io S A
crash s = (panic, s)

infixl 5 ◌>>=◌ ◌>>◌
abbrev pub ◌>>=◌ : {S A B : Type 0} → Io S A → (A → Io S B) → Io S B
◌>>=◌ m f s =
    let (r, s') = m s in elim r [ ok a ↦ f a s' | fail e ↦ (fail e, s') | panic ↦ (panic, s') ]

abbrev pub ◌>>◌ : {S B : Type 0} → Io S (Unit {0}) → Io S B → Io S B
m >> k = m >>= λ _. k

-- `a, err := m`
abbrev pub caught : {A : Type 0} → Outcome A → Outcome (Result A)
caught (ok a) = ok (value a)
caught (fail e) = ok (error e)
caught panic = panic

abbrev pub attempt : {S A : Type 0} → Io S A → Io S (Result A)
attempt m s = let (r, s') = m s in (caught r, s')

abbrev pub call : {W A : Type 0} → Call W A → Io W A
call c w = let (r, w') = c w in (of_result r, w')

-- `defer last` around `body`: it runs however the body ends, and changes the outcome only by a
-- panic of its own.
abbrev after_defer : {A : Type 0} → Outcome A → Outcome (Unit {0}) → Outcome A
after_defer r panic = panic
after_defer r _ = r

abbrev pub deferred : {S A : Type 0} → Io S (Unit {0}) → Io S A → Io S A
deferred last body s = let (r, s') = body s in let (q, s'') = last s' in (after_defer r q, s'')

-- Inversion of a bind that returns.
pub bind_ok :
    {S A B : Type 0} (m : Io S A) (f : A → Io S B) (s : S) {b : B}
    → ((m >>= f) s).0 ≡ ok b
    → (a : A) × (s' : S) × (m s ≡ (ok a, s')) × ((f a s').0 ≡ ok b)
bind_ok {S} {A} {B} m f s {b} h = go (m s) refl h
  where
    go :
        (q : Outcome A × S)
        → m s ≡ q
        → ((let bound : Io S B = (λ _. q) >>= f in bound) s).0 ≡ ok b
        → (a : A) × (s' : S) × (m s ≡ (ok a, s')) × ((f a s').0 ≡ ok b)
    go (ok a, s') e p = (a, s', e, p)
    go (fail x, s') e p = cc
    go (panic, s') e p = cc
