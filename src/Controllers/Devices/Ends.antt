-- ===== src/Controllers/Devices/Ends.antt =====
-- A request for a device ends: the whole of `Reconcile`, and the syncer, over the client of EdgeX.
use yurt_device_controller.Prelude.{
  List, ap, String, ◌≡◌, refl, arith, false, [], ◌∷◌, if◌then◌else◌, is_empty,
}
use yurt_device_controller.Prelude.Io.{raise, Io, Result, value, error, attempt}
use yurt_device_controller.Prelude.Safe.{Returns, panicked}
use yurt_device_controller.Api.{Device, device_finalizer, is_zero}
use yurt_device_controller.EdgeX.Names.{edgex_object_name, get_edge_device_name}
use yurt_device_controller.EdgeX.Http.{HasEntries}
use yurt_device_controller.EdgeX.DeviceClient.{device_interface}
use yurt_device_controller.EdgeX.DeviceClient.Client.{EdgexDeviceClient}
use yurt_device_controller.EdgeX.DeviceClient.Safe.{
  HasLocations, get-Safe, create-Safe, update-Safe, delete-Safe, list-Safe,
  update_property_state-Safe,
}
use yurt_device_controller.Controllers.DeviceSyncer as Syncer
use yurt_device_controller.Clients.Errors.{is_not_found_err}
use yurt_device_controller.Controllers.Session.{Session, patch, request, edge_deleted}
use yurt_device_controller.Controllers.Session.Objects.{
  Preserves, Preserves-bind, Preserves-if, patch-Preserves,
}
use yurt_device_controller.Controllers.Devices.Reconciler.{DeviceReconciler}
use yurt_device_controller.Controllers.Devices.Lifecycle.{remove_device, reconcile_delete_device}
use yurt_device_controller.Controllers.Devices.Reconcile.{
  after_delete, reconcile_device, reconcile_loaded, reconcile,
}
use yurt_device_controller.Controllers.Devices.Safe.{
  IsLive, CanRead, HoldsReadable, IsReadable, update_conditions-Safe, synchronize-Safe,
  reconcile_delete_device-Safe,
}

module _ {W : Type 0} (r : DeviceReconciler W) (live : IsLive r) (holds : HoldsReadable r) where
  abbrev CanReadOwn : Device → Type 0
  CanReadOwn d = CanRead r d d.spec.device_properties

  patch-CanRead : (fs : List String) → Preserves CanReadOwn (patch r.client fs)
  patch-CanRead = patch-Preserves CanReadOwn r.client holds.patches

  remove_device-CanRead : (name : String) → Preserves CanReadOwn (remove_device r name)
  unfolding remove_device
  remove_device-CanRead name =
      Preserves-bind CanReadOwn (attempt (request (edge_deleted name) (r.device_cli.delete name)))
        answered (λ s h. h) after
    where
      answered : Result (Unit {0}) → Io (Session W Device) (Unit {0})
      answered q = elim q [
        | error e ↦ if is_not_found_err e then patch r.client [] else raise e
        | value _ ↦ patch r.client []
      ]

      after : (q : Result (Unit {0})) → Preserves CanReadOwn (answered q)
      after (error e) =
          Preserves-if CanReadOwn (is_not_found_err e) _ (raise e) (patch-CanRead []) λ s h. h
      after (value _) = patch-CanRead []

  reconcile_delete_device-CanRead : Preserves CanReadOwn (reconcile_delete_device r)
  unfolding reconcile_delete_device
  reconcile_delete_device-CanRead s =
      Preserves-if CanReadOwn (is_zero s.object.metadata.deletion_timestamp) _ _
        (Preserves-if CanReadOwn (is_empty s.object.metadata.finalizers) _ _
          (patch-CanRead (device_finalizer ∷ [])) λ s h. h)
        (remove_device-CanRead (get_edge_device_name s.object edgex_object_name)) s

  reconcile_device-Safe :
      (s : Session W Device) → IsReadable r live holds s → panicked (reconcile_device r s).0 ≡ false
  unfolding reconcile_device after_delete
  reconcile_device-Safe s can = ground (
    arith,
    reconcile_delete_device-Safe r live holds s,
    synchronize-Safe r live holds (reconcile_delete_device r s).1
        (reconcile_delete_device-CanRead s can),
  )

  reconcile_loaded-Safe :
      (w : W) (d : Device) → CanReadOwn d → panicked (reconcile_loaded r w d).0 ≡ false
  unfolding reconcile_loaded
  reconcile_loaded-Safe w d can =
      let s : Session W Device = record { world = w; object = d; trace = [] } in
      ground (
        arith,
        reconcile_device-Safe s can,
        update_conditions-Safe r live holds (reconcile_device r s).1,
      )

  -- Where no call of the client of the edge platform panics, and the devices that the cluster
  -- gives desire only properties of which every read gives a state or an error other than "not
  -- found": a request for a device ends without a panic, whatever the answers are.
  pub reconcile_never_panics : (name : String) (w : W) → panicked (reconcile r name w).0 ≡ false
  unfolding reconcile
  reconcile_never_panics name w = go (r.client.get name w) refl
    where
      go :
          (q : Result Device × W)
          → r.client.get name w ≡ q
          → panicked (reconcile r name w).0 ≡ false
      go (value d, w') e = ground (
        arith,
        e,
        reconcile_loaded-Safe w' d (holds.loads name w d (ap (λ (q : Result Device × W). q.0) e)),
      )
      go (error x, w') e = ground (arith, e)

-- The client of EdgeX, and the syncer over it.
module _ {W : Type 0} (efc : EdgexDeviceClient W) (entries : HasEntries efc.http efc.codec)
    (locations : HasLocations efc) where
  pub edgex_client-IsLive :
      (r : DeviceReconciler W) → IsLive (record r { device_cli = device_interface efc })
  edgex_client-IsLive r = record {
    gets = λ n. get-Safe efc n locations;
    creates = λ d. create-Safe efc d entries;
    updates = update-Safe efc;
    deletes = delete-Safe efc;
    sets = update_property_state-Safe efc;
  }

  pub sync_round-Returns :
      (ds : Syncer.DeviceSyncer W)
      → Returns (Syncer.sync_round (record ds { device_cli = device_interface efc }))
  unfolding Syncer.sync_round Syncer.get_all_devices
  sync_round-Returns ds w = ground (arith, list-Safe efc locations w)
