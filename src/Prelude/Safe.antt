-- ===== src/Prelude/Safe.antt =====
-- Code that does not panic, whatever the state it starts in: rules for its parts.
use mathlib.Core.Path.{◌≡◌, refl}
use mathlib.Core.Bool.{Bool, true, false}
use native.Mathlib.Omega.{arith}
use yurt_device_controller.Prelude.Tests.{if◌then◌else◌}
use yurt_device_controller.Prelude.Io.{
  Io, Outcome, Result, ok, fail, panic, value, error, Call, call, attempt, deferred, pure, ◌>>=◌,
  ◌>>◌,
}

abbrev pub panicked : {A : Type 0} → Outcome A → Bool
panicked panic = true
panicked _ = false

abbrev pub Safe : {S A : Type 0} → Io S A → Type 0
Safe {S} m = (s : S) → panicked (m s).0 ≡ false

pub Safe-bind :
    {S A B : Type 0} (m : Io S A) (f : A → Io S B)
    → Safe m
    → ((a : A) → Safe (f a))
    → Safe (m >>= f)
Safe-bind {S} {A} {B} m f hm hf s = go (m s) (hm s)
  where
    go :
        (q : Outcome A × S)
        → panicked q.0 ≡ false
        → panicked ((let bound : Io S B = (λ _. q) >>= f in bound) s).0 ≡ false
    go (ok a, s') h = hf a s'
    go (fail e, s') h = refl
    go (panic, s') h = h

pub Safe-then : {S B : Type 0} (m : Io S (Unit {0})) (k : Io S B) → Safe m → Safe k → Safe (m >> k)
Safe-then m k hm hk = Safe-bind m (λ _. k) hm λ _. hk

pub Safe-if : {S A : Type 0} (b : Bool) (m k : Io S A) → Safe m → Safe k → Safe (if b then m else k)
Safe-if true m k hm hk = hm
Safe-if false m k hm hk = hk

-- The error of a call is a value of its own; a panic is not.
pub Safe-attempt : {S A : Type 0} (m : Io S A) → Safe m → Safe (attempt m)
Safe-attempt {S} {A} m hm s = go (m s) (hm s)
  where
    go :
        (q : Outcome A × S)
        → panicked q.0 ≡ false
        → panicked ((let tried : Io S (Result A) = attempt (λ _. q) in tried) s).0 ≡ false
    go (ok a, s') h = refl
    go (fail e, s') h = refl
    go (panic, s') h = h

-- Code outside the repository answers or gives an error.
pub Safe-call : {W A : Type 0} (c : Call W A) → Safe (call c)
Safe-call c w = go (c w).0
  where
    go :
        {A : Type 0} (q : Result A)
        → panicked (elim q [ value a ↦ ok a | error e ↦ fail e ]) ≡ false
    go (value a) = refl
    go (error e) = refl

pub Safe-deferred :
    {S A : Type 0} (last : Io S (Unit {0})) (body : Io S A)
    → Safe last
    → Safe body
    → Safe (deferred last body)
Safe-deferred last body hl hb s = ground (arith, hb s, hl (body s).1)

-- The result of a call is dropped.
abbrev pub dropped : {S A : Type 0} → Io S A → Io S (Unit {0})
dropped m = attempt m >>= λ _. pure tt

-- Code that returns, whatever the state it starts in.
abbrev pub Returns : {S : Type 0} → Io S (Unit {0}) → Type 0
Returns {S} m = (s : S) → (m s).0 ≡ ok tt

pub Returns-dropped : {S A : Type 0} (m : Io S A) → Safe m → Returns (dropped m)
Returns-dropped {S} {A} m h s = go (m s) (h s)
  where
    go :
        (q : Outcome A × S)
        → panicked q.0 ≡ false
        → ((let tried : Io S (Unit {0}) = dropped (λ _. q) in tried) s).0 ≡ ok tt
    go (ok a, s') e = refl
    go (fail x, s') e = refl
    go (panic, s') e = cc

pub Returns-then : {S : Type 0} (m k : Io S (Unit {0})) → Returns m → Returns k → Returns (m >> k)
Returns-then m k hm hk s = ground (arith, hm s, hk (m s).1)
