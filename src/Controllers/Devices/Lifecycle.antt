-- ===== src/Controllers/Devices/Lifecycle.antt =====
-- `reconcileDeleteDevice` and `reconcileCreateDevice` (pkg/controllers/device_controller.go).
use yurt_device_controller.Prelude.{String, ◌<>◌, [], ◌∷◌, true, if◌then◌else◌, is_empty}
use yurt_device_controller.Prelude.Io.{
  Io, new_error, value, error, pure, raise, attempt, ◌>>=◌, ◌>>◌,
}
use yurt_device_controller.Api.{
  Device, DeviceStatus, device_finalizer, device_synced_condition, is_zero,
}
use yurt_device_controller.EdgeX.Names.{edgex_object_name, get_edge_device_name}
use yurt_device_controller.Clients.Errors.{is_not_found_err}
use yurt_device_controller.Controllers.Kube.{warning}
use yurt_device_controller.Controllers.Session.{
  Session, request, the_object, modify, patch, write_status, edge_fetched, edge_deleted,
  edge_created,
}
use yurt_device_controller.Controllers.Devices.Reconciler.{DeviceReconciler, mark_true, mark_false}

module _ {W : Type 0} (r : DeviceReconciler W) where
  -- The branch of a device that is not being deleted.
  add_finalizer : Device → Io (Session W Device) (Unit {0})
  add_finalizer d =
      if is_empty d.metadata.finalizers then patch r.client (device_finalizer ∷ []) else pure tt

  -- The branch of a device that is being deleted: first on the edge platform, then its finalizers.
  unfoldable pub remove_device : String → Io (Session W Device) (Unit {0})
  remove_device name = do
    deleted ← attempt (request (edge_deleted name) (r.device_cli.delete name))
    elim deleted [
      | error e ↦ if is_not_found_err e then patch r.client [] else raise e
      | value _ ↦ patch r.client []
    ]

  unfoldable pub reconcile_delete_device : Io (Session W Device) (Unit {0})
  unfolding remove_device add_finalizer
  reconcile_delete_device = do
    d ← the_object
    if is_zero d.metadata.deletion_timestamp
        then add_finalizer d
        else remove_device (get_edge_device_name d edgex_object_name)

  -- The device is on the edge platform: `newDeviceStatus` gets its id, and is written.
  unfoldable pub adopt : DeviceStatus → String → Io (Session W Device) (Unit {0})
  adopt st id = do
    modify (λ d. record d { status = record st { edge_id = id; synced = true } })
    mark_true r device_synced_condition
    write_status r.client

  unfoldable pub add_device : Device → Io (Session W Device) (Unit {0})
  add_device d = do
    created ← attempt (request (edge_created d) (r.device_cli.create d))
    elim created [
      | error e ↦ do
        mark_false r device_synced_condition "failed to create device on edge platform" warning
            (e.message)
        raise (new_error ("fail to add Device to edge platform: " <> e.message))
      | value c ↦ adopt d.status c.status.edge_id
    ]

  unfoldable pub reconcile_create_device : Io (Session W Device) (Unit {0})
  reconcile_create_device = do
    d ← the_object
    let name = get_edge_device_name d edgex_object_name
    found ← attempt (request (edge_fetched name) (r.device_cli.get name))
    elim found [
      | value e ↦ adopt d.status e.status.edge_id
      | error e ↦
          if is_not_found_err e
          then add_device d
          else mark_false r device_synced_condition
              "failed to visit the EdgeX core-metadata-service" warning ""
    ]
