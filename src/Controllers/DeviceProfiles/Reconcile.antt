-- ===== src/Controllers/DeviceProfiles/Reconcile.antt =====
-- `DeviceProfileReconciler` and its methods (pkg/controllers/deviceprofile_controller.go).
use yurt_device_controller.Prelude.{String, ◌<>◌, [], ◌∷◌, true, if◌then◌else◌, ◌==◌, is_empty}
use yurt_device_controller.Prelude.Io.{
  Io, Result, new_error, value, error, pure, raise, attempt, call, ok, Outcome, is_conflict, ◌>>=◌,
  ◌>>◌,
}
use yurt_device_controller.Api.{DeviceProfile, device_profile_finalizer, is_zero}
use yurt_device_controller.EdgeX.Names.{edgex_object_name, get_edge_device_profile_name}
use yurt_device_controller.Clients.Errors.{is_not_found_err}
use yurt_device_controller.Clients.Interface.{DeviceProfileInterface}
use yurt_device_controller.Controllers.Kube.{
  KubeClient, ReconcileResult, done, requeue_now, ignore_not_found,
}
use yurt_device_controller.Controllers.Session.{
  Session, request, the_object, modify, patch, write_status, edge_fetched, edge_deleted,
  edge_created,
}

pub record DeviceProfileReconciler (W : Type 0) : Type 0 where
  pub client : KubeClient W DeviceProfile
  pub edge_client : DeviceProfileInterface W
  pub node_pool : String

module _ {W : Type 0} (r : DeviceProfileReconciler W) where
  add_profile_finalizer : DeviceProfile → Io (Session W DeviceProfile) (Unit {0})
  add_profile_finalizer d =
      if is_empty d.metadata.finalizers
      then patch r.client (device_profile_finalizer ∷ [])
      else pure tt

  -- First the finalizers, then the edge platform.
  unfoldable pub remove_profile : String → Io (Session W DeviceProfile) (Unit {0})
  remove_profile name = do
    patch r.client []
    deleted ← attempt (request (edge_deleted name) (r.edge_client.delete name))
    elim deleted [ error e ↦ if is_not_found_err e then pure tt else raise e | value _ ↦ pure tt ]

  unfoldable pub reconcile_delete_device_profile : String → Io (Session W DeviceProfile) (Unit {0})
  unfolding remove_profile add_profile_finalizer
  reconcile_delete_device_profile actual_name = do
    d ← the_object
    if is_zero d.metadata.deletion_timestamp
        then add_profile_finalizer d
        else remove_profile actual_name

  unfoldable pub adopt_profile : String → Io (Session W DeviceProfile) (Unit {0})
  adopt_profile id = do
    modify (λ d. record d { status = record (d.status) { edge_id = id; synced = true } })
    write_status r.client

  unfoldable pub add_profile : DeviceProfile → Io (Session W DeviceProfile) (Unit {0})
  add_profile d = do
    created ← attempt (request (edge_created d) (r.edge_client.create d))
    elim created [
      | error e ↦ raise (new_error ("failed to add deviceProfile to edge platform: " <> e.message))
      | value c ↦ adopt_profile c.status.edge_id
    ]

  unfoldable pub reconcile_create_device_profile : String → Io (Session W DeviceProfile) (Unit {0})
  reconcile_create_device_profile actual_name = do
    d ← the_object
    found ← attempt (request (edge_fetched actual_name) (r.edge_client.get actual_name))
    elim found [
      | error e ↦ if is_not_found_err e then add_profile d else pure tt
      | value e ↦ adopt_profile e.status.edge_id
    ]

  -- A conflict is answered by another call.
  retried : Result (Unit {0}) → Io (Session W DeviceProfile) ReconcileResult
  retried (value _) = pure done
  retried (error e) = if is_conflict e then pure requeue_now else raise e

  unfoldable pub synchronize_profile :
      String → DeviceProfile → Io (Session W DeviceProfile) ReconcileResult
  unfolding retried
  synchronize_profile actual_name d =
      if d.status.synced
      then pure done
      else attempt (reconcile_create_device_profile actual_name) >>= retried

  unfoldable pub after_profile_delete :
      String → Result (Unit {0}) → Io (Session W DeviceProfile) ReconcileResult
  after_profile_delete actual_name (error e) = ignore_not_found e
  after_profile_delete actual_name (value _) = do
    d ← the_object
    if is_zero d.metadata.deletion_timestamp then synchronize_profile actual_name d else pure done

  -- `Reconcile`, once the object is loaded.
  unfoldable pub reconcile_loaded :
      W → DeviceProfile → Outcome ReconcileResult × Session W DeviceProfile
  reconcile_loaded w d =
      let s : Session W DeviceProfile = record { world = w; object = d; trace = [] } in
      let name = get_edge_device_profile_name d edgex_object_name in
      let run : Io (Session W DeviceProfile) ReconcileResult =
        attempt (reconcile_delete_device_profile name) >>= after_profile_delete name in
      if d.spec.node_pool == r.node_pool then run s else (ok done, s)

  unfoldable pub reconcile : String → Io W ReconcileResult
  unfolding reconcile_loaded
  reconcile name = do
    loaded ← attempt (call (r.client.get name))
    elim loaded [
      | error e ↦ ignore_not_found e
      | value d ↦ λ w. let (q, s) = reconcile_loaded w d in (q, s.world)
    ]
