-- ===== src/Controllers/Session/Calls.antt =====
-- Calls recorded in a session do not panic where the code called does not.
use yurt_device_controller.Prelude.{String, List, arith}
use yurt_device_controller.Prelude.Io.{Io}
use yurt_device_controller.Prelude.Safe.{Safe}
use yurt_device_controller.Controllers.Kube.{KubeClient}
use yurt_device_controller.Controllers.Session.{Event, request, patch, write_status}

module _ {W T : Type 0} where
  pub Safe-request : {A : Type 0} (e : Event T) (m : Io W A) → Safe m → Safe (request e m)
  Safe-request e m h s = h s.world

  pub patch-Safe : (kube : KubeClient W T) (fs : List String) → Safe (patch kube fs)
  unfolding patch
  patch-Safe kube fs s = ground arith

  pub write_status-Safe : (kube : KubeClient W T) → Safe (write_status kube)
  unfolding write_status
  write_status-Safe kube s = ground arith
