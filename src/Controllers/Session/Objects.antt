-- ===== src/Controllers/Session/Objects.antt =====
-- Code after which the object of the session still has a property.
use yurt_device_controller.Prelude.{
  ◌≡◌, refl, ap, sym, subst, arith, Bool, true, false, String, List, if◌then◌else◌,
}
use yurt_device_controller.Prelude.Io.{Io, Outcome, Result, value, error, ok, fail, panic, ◌>>=◌}
use yurt_device_controller.Controllers.Kube.{KubeClient}
use yurt_device_controller.Controllers.Session.{Session, patch}

module _ {W T : Type 0} (P : T → Type 0) where
  abbrev pub Preserves : {A : Type 0} → Io (Session W T) A → Type 0
  Preserves m = (s : Session W T) → P s.object → P (m s).1.object

  pub Preserves-bind :
      {A B : Type 0} (m : Io (Session W T) A) (f : A → Io (Session W T) B)
      → Preserves m
      → ((a : A) → Preserves (f a))
      → Preserves (m >>= f)
  Preserves-bind {A} {B} m f hm hf s start = go (m s) (hm s start)
    where
      go :
          (q : Outcome A × Session W T)
          → P q.1.object
          → P ((let bound : Io (Session W T) B = (λ _. q) >>= f in bound) s).1.object
      go (ok a, s') h = hf a s' h
      go (fail e, s') h = h
      go (panic, s') h = h

  pub Preserves-if :
      {A : Type 0} (b : Bool) (m k : Io (Session W T) A)
      → Preserves m
      → Preserves k
      → Preserves (if b then m else k)
  Preserves-if true m k hm hk = hm
  Preserves-if false m k hm hk = hk

  -- A patch that succeeds leaves the object that the cluster gave.
  pub patch-Preserves :
      (kube : KubeClient W T)
      → ((d d' : T) (fs : List String) (w : W) → (kube.patch_finalizers d fs w).0 ≡ value d' → P d')
      → (fs : List String) → Preserves (patch kube fs)
  unfolding patch
  patch-Preserves kube given fs s start = go (kube.patch_finalizers s.object fs s.world) refl
    where
      go :
          (q : Result T × W)
          → kube.patch_finalizers s.object fs s.world ≡ q
          → P (patch kube fs s).1.object
      go (value d', w) e =
          let patched : (patch kube fs s).1.object ≡ d' = ground (arith, e) in
          subst P (sym patched) (given s.object d' fs s.world (ap (λ (q : Result T × W). q.0) e))
      go (error x, w) e =
          let kept : (patch kube fs s).1.object ≡ s.object = ground (arith, e) in
          subst P (sym kept) start
