-- ===== src/Controllers/Devices/Reconciler.antt =====
-- The receiver `DeviceReconciler` and the marks that its methods set on the device.
use yurt_device_controller.Prelude.{String}
use yurt_device_controller.Prelude.Io.{Io}
use yurt_device_controller.Api.{Device, set_conditions}
use yurt_device_controller.Clients.Interface.{DeviceInterface}
use yurt_device_controller.Controllers.Kube.{KubeClient, ConditionsUtil, Severity}
use yurt_device_controller.Controllers.Session.{Session, modify}

pub record DeviceReconciler (W : Type 0) : Type 0 where
  pub client : KubeClient W Device
  pub conditions : ConditionsUtil
  pub device_cli : DeviceInterface W
  pub node_pool : String

module _ {W : Type 0} (r : DeviceReconciler W) where
  -- `conditions.MarkTrue(d, …)` and `conditions.MarkFalse(d, …)`
  abbrev pub mark_true : String → Io (Session W Device) (Unit {0})
  mark_true kind = modify (λ d. set_conditions d (r.conditions.mark_true kind d.status.conditions))

  abbrev pub mark_false : String → String → Severity → String → Io (Session W Device) (Unit {0})
  mark_false kind reason severity message = modify (λ d.
      set_conditions d (r.conditions.mark_false kind reason severity message d.status.conditions))
