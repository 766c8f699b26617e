-- ===== src/Controllers/Devices/Update.antt =====
-- `reconcileUpdateDevice` (pkg/controllers/device_controller.go).
use yurt_device_controller.Prelude.{
  String, ◌<>◌, Bool, not, ◌&&◌, List, [], ◌∷◌, ◌==◌, if◌then◌else◌, is_empty,
}
use yurt_device_controller.Prelude.Io.{Io, value, error, pure, raise, attempt, ◌>>=◌, ◌>>◌}
use yurt_device_controller.Api.{Device, DeviceStatus, device_managing_condition, up, unlocked}
use yurt_device_controller.Controllers.Kube.{warning, info}
use yurt_device_controller.Controllers.Session.{
  Session, request, the_object, modify, write_status, edge_updated,
}
use yurt_device_controller.Controllers.Devices.Reconciler.{DeviceReconciler, mark_true, mark_false}
use yurt_device_controller.Controllers.Devices.Properties.{reconcile_device_properties, Progress}

-- The desired state is set and differs from the reported one.
abbrev pub wants_change : String → String → Bool
wants_change desired reported = not (desired == "") && not (desired == reported)

-- `newDeviceStatus` after step 1
unfoldable pub desired_status : Device → DeviceStatus
desired_status d = record (d.status) {
  admin_state =
      if wants_change d.spec.admin_state d.status.admin_state
      then d.spec.admin_state
      else d.status.admin_state;
  operating_state =
      if wants_change d.spec.operating_state d.status.operating_state
      then d.spec.operating_state
      else d.status.operating_state;
}

-- `updateDevice` after step 1
unfoldable pub update_device : Device → Device
update_device d = record d {
  spec = record (d.spec) {
    admin_state =
        if wants_change d.spec.admin_state d.status.admin_state then d.spec.admin_state else "";
    operating_state =
        if wants_change d.spec.operating_state d.status.operating_state
        then d.spec.operating_state
        else "";
  };
}

-- A slice of texts under the verb %v.
abbrev words : List String → String
words [] = ""
words (n ∷ []) = n
words (n ∷ m ∷ ns) = n <> (" " <> words (m ∷ ns))

abbrev pub failed_properties_text : List String → String
failed_properties_text names =
    "the following device properties failed to reconcile: [" <> (words names <> "]")

module _ {W : Type 0} (r : DeviceReconciler W) where
  -- Step 3, and the condition that tells how the handling went.
  unfoldable pub finish_update : Progress → Io (Session W Device) (Unit {0})
  finish_update (st, names) = do
    modify (λ d. record d { status = st })
    written ← attempt (write_status r.client)
    elim written [
      | error e ↦ do
        mark_false r device_managing_condition "failed to update status of device on openyurt"
            warning (e.message)
        raise e
      | value _ ↦
          if is_empty names
          then mark_true r device_managing_condition
          else mark_false r device_managing_condition (failed_properties_text names) info ""
    ]

  -- Step 2: properties are set only on a device that is up and unlocked.
  unfoldable pub reconcile_values : Device → Io (Session W Device) Progress
  reconcile_values d =
      let st = desired_status d in
      if st.operating_state == up && st.admin_state == unlocked
      then reconcile_device_properties r d st
      else pure (st, [])

  -- Steps 2 and 3
  unfoldable pub settle_update : Device → Io (Session W Device) (Unit {0})
  settle_update d = reconcile_values d >>= finish_update

  unfoldable pub reconcile_update_device : Io (Session W Device) (Unit {0})
  reconcile_update_device = do
    d ← the_object
    updated ←
        attempt (request (edge_updated (update_device d)) (r.device_cli.update (update_device d)))
    elim updated [
      | error e ↦ do
        mark_false r device_managing_condition
            "failed to update AdminState or OperatingState of device on edge platform" warning
            (e.message)
        raise e
      | value _ ↦ settle_update d
    ]
