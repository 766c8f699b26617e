-- ===== src/Controllers/Session/Stays.antt =====
-- Code that leaves an observation of the world outside as it is.
use yurt_device_controller.Prelude.{◌≡◌, ◌∙◌, Bool}
use yurt_device_controller.Prelude.Io.{Io, Outcome, ok, fail, panic, ◌>>=◌}
use yurt_device_controller.Controllers.Session.{Session}

module _ {W T : Type 0} (observe : W → Bool) where
  abbrev pub Stays : {A : Type 0} → Io (Session W T) A → Type 0
  Stays m = (s : Session W T) → observe (m s).1.world ≡ observe s.world

  pub Stays-bind :
      {A B : Type 0} (m : Io (Session W T) A) (f : A → Io (Session W T) B)
      → Stays m
      → ((a : A) → Stays (f a))
      → Stays (m >>= f)
  Stays-bind {A} {B} m f hm hf s = go (m s) (hm s)
    where
      go :
          (q : Outcome A × Session W T)
          → observe q.1.world ≡ observe s.world
          → observe ((let bound : Io (Session W T) B = (λ _. q) >>= f in bound) s).1.world
            ≡ observe s.world
      go (ok a, s') h = hf a s' ∙ h
      go (fail e, s') h = h
      go (panic, s') h = h
