-- ===== src/Controllers/DeviceServices/Lifecycle.antt =====
-- The receiver `DeviceServiceReconciler`, `reconcileDeleteDeviceService` and
-- `reconcileCreateDeviceService` (pkg/controllers/deviceservice_controller.go).
use yurt_device_controller.Prelude.{String, ◌<>◌, [], ◌∷◌, true, if◌then◌else◌, is_empty}
use yurt_device_controller.Prelude.Io.{
  Io, new_error, value, error, pure, raise, attempt, ◌>>=◌, ◌>>◌,
}
use yurt_device_controller.Api.{
  DeviceService, device_service_finalizer, device_service_synced_condition, set_service_conditions,
  is_zero,
}
use yurt_device_controller.EdgeX.Names.{edgex_object_name, get_edge_device_service_name}
use yurt_device_controller.Clients.Errors.{is_not_found_err}
use yurt_device_controller.Clients.Interface.{DeviceServiceInterface}
use yurt_device_controller.Controllers.Kube.{KubeClient, ConditionsUtil, Severity, warning}
use yurt_device_controller.Controllers.Session.{
  Session, request, the_object, modify, patch, write_status, edge_fetched, edge_deleted,
  edge_created,
}

pub record DeviceServiceReconciler (W : Type 0) : Type 0 where
  pub client : KubeClient W DeviceService
  pub conditions : ConditionsUtil
  pub device_service_cli : DeviceServiceInterface W
  pub node_pool : String

module _ {W : Type 0} (r : DeviceServiceReconciler W) where
  -- `conditions.MarkTrue(ds, …)` and `conditions.MarkFalse(ds, …)`
  abbrev pub mark_true : String → Io (Session W DeviceService) (Unit {0})
  mark_true kind =
      modify (λ d. set_service_conditions d (r.conditions.mark_true kind d.status.conditions))

  abbrev pub mark_false :
      String → String → Severity → String → Io (Session W DeviceService) (Unit {0})
  mark_false kind reason severity message = modify (λ d.
      set_service_conditions d
        (r.conditions.mark_false kind reason severity message d.status.conditions))

  -- The branch of a service that is not being deleted.
  add_service_finalizer : DeviceService → Io (Session W DeviceService) (Unit {0})
  add_service_finalizer d =
      if is_empty d.metadata.finalizers
      then patch r.client (device_service_finalizer ∷ [])
      else pure tt

  -- The branch of a service that is being deleted: first its finalizers, then on the edge platform.
  unfoldable pub remove_service : String → Io (Session W DeviceService) (Unit {0})
  remove_service name = do
    patch r.client []
    deleted ← attempt (request (edge_deleted name) (r.device_service_cli.delete name))
    elim deleted [ error e ↦ if is_not_found_err e then pure tt else raise e | value _ ↦ pure tt ]

  unfoldable pub reconcile_delete_device_service : Io (Session W DeviceService) (Unit {0})
  unfolding remove_service add_service_finalizer
  reconcile_delete_device_service = do
    d ← the_object
    if is_zero d.metadata.deletion_timestamp
        then add_service_finalizer d
        else remove_service (get_edge_device_service_name d edgex_object_name)

  -- `ds.Status.EdgeId` and `ds.Status.Synced` are set.
  abbrev pub with_edge_id : String → DeviceService → DeviceService
  with_edge_id id d = record d { status = record (d.status) { edge_id = id; synced = true } }

  unfoldable pub add_service : DeviceService → Io (Session W DeviceService) (Unit {0})
  add_service d = do
    created ← attempt (request (edge_created d) (r.device_service_cli.create d))
    elim created [
      | error e ↦ do
        mark_false device_service_synced_condition "failed to add DeviceService to EdgeX" warning
            (e.message)
        raise (new_error ("fail to add DeviceService to edge platform: " <> e.message))
      | value c ↦ do
        modify (with_edge_id c.status.edge_id)
        mark_true device_service_synced_condition
        write_status r.client
    ]

  -- The service is on the edge platform already; no condition is marked.
  unfoldable pub adopt_service : String → Io (Session W DeviceService) (Unit {0})
  adopt_service id = do modify (with_edge_id id); write_status r.client

  unfoldable pub reconcile_create_device_service : Io (Session W DeviceService) (Unit {0})
  reconcile_create_device_service = do
    d ← the_object
    let name = get_edge_device_service_name d edgex_object_name
    found ← attempt (request (edge_fetched name) (r.device_service_cli.get name))
    elim found [
      | error e ↦ if is_not_found_err e then add_service d else pure tt
      | value e ↦ adopt_service e.status.edge_id
    ]
