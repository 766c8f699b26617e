-- ===== src/Controllers/Session/Keeps.antt =====
-- Code that makes no call for which a test holds: rules for its parts.
use yurt_device_controller.Prelude.{◌≡◌, ◌∙◌, Bool, false, arith}
use yurt_device_controller.Prelude.Io.{Io, Outcome, ok, fail, panic, ◌>>=◌}
use yurt_device_controller.Controllers.Session.{Session, Event, any, request}

module _ {W T : Type 0} (test : Event T → Bool) where
  abbrev pub Keeps : {A : Type 0} → Io (Session W T) A → Type 0
  Keeps m = (s : Session W T) → any test (m s).1.trace ≡ any test s.trace

  pub Keeps-bind :
      {A B : Type 0} (m : Io (Session W T) A) (f : A → Io (Session W T) B)
      → Keeps m
      → ((a : A) → Keeps (f a))
      → Keeps (m >>= f)
  Keeps-bind {A} {B} m f hm hf s = go (m s) (hm s)
    where
      go :
          (q : Outcome A × Session W T)
          → any test q.1.trace ≡ any test s.trace
          → any test ((let bound : Io (Session W T) B = (λ _. q) >>= f in bound) s).1.trace
            ≡ any test s.trace
      go (ok a, s') h = hf a s' ∙ h
      go (fail e, s') h = h
      go (panic, s') h = h

  pub Keeps-request : {A : Type 0} (e : Event T) (m : Io W A) → test e ≡ false → Keeps (request e m)
  Keeps-request e m h s = ground arith
