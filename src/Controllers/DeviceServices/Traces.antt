-- ===== src/Controllers/DeviceServices/Traces.antt =====
-- Which calls the parts of the reconciler of device services never make.
use yurt_device_controller.Prelude.{String, ◌≡◌, arith, Bool, false}
use yurt_device_controller.Prelude.Io.{Result, value, error}
use yurt_device_controller.Api.{DeviceService}
use yurt_device_controller.EdgeX.Names.{edgex_object_name, get_edge_device_service_name}
use yurt_device_controller.Controllers.Session.{
  Event, write_status, status_written, edge_updated, edge_created, edge_fetched,
}
use yurt_device_controller.Controllers.Session.Keeps.{Keeps}
use yurt_device_controller.Controllers.DeviceServices.Lifecycle.{
  DeviceServiceReconciler, add_service, adopt_service, reconcile_create_device_service,
}
use yurt_device_controller.Controllers.DeviceServices.Reconcile.{
  finish_service_update, reconcile_update_device_service, update_service_conditions,
  synchronize_service, after_service_delete, update_device_service, desired_service_status,
}

module _ {W : Type 0} (r : DeviceServiceReconciler W) where
  module _ (test : Event DeviceService → Bool)
      (written : (x : DeviceService) → test (status_written x) ≡ false) where
    write_status-Keeps : Keeps test (write_status r.client)
    unfolding write_status
    write_status-Keeps s = ground (arith, written s.object)

    pub update_service_conditions-Keeps : Keeps test (update_service_conditions r)
    unfolding update_service_conditions
    update_service_conditions-Keeps s = grind (arith, write_status-Keeps)

    finish_service_update-Keeps :
        (d : DeviceService) → Keeps test (finish_service_update r (desired_service_status d))
    unfolding finish_service_update
    finish_service_update-Keeps d s = grind (arith, write_status-Keeps)

    reconcile_update_device_service-Keeps :
        ((x : DeviceService) → test (edge_updated x) ≡ false)
        → Keeps test (reconcile_update_device_service r)
    unfolding reconcile_update_device_service
    reconcile_update_device_service-Keeps updated s =
        grind (arith, updated (update_device_service s.object), finish_service_update-Keeps)

    adopt_service-Keeps : (id : String) → Keeps test (adopt_service r id)
    unfolding adopt_service
    adopt_service-Keeps id s = grind (arith, write_status-Keeps)

    module _ (created : (x : DeviceService) → test (edge_created x) ≡ false) where
      add_service-Keeps : (d : DeviceService) → Keeps test (add_service r d)
      unfolding add_service
      add_service-Keeps d s = grind (arith, created d, write_status-Keeps)

      reconcile_create_device_service-Keeps :
          ((n : String) → test (edge_fetched n) ≡ false)
          → Keeps test (reconcile_create_device_service r)
      unfolding reconcile_create_device_service
      reconcile_create_device_service-Keeps fetched s = grind (
        arith,
        fetched (get_edge_device_service_name s.object edgex_object_name),
        adopt_service-Keeps,
        add_service-Keeps,
      )

      module _ (updated : (x : DeviceService) → test (edge_updated x) ≡ false)
          (fetched : (n : String) → test (edge_fetched n) ≡ false) where
        synchronize_service-Keeps : (d : DeviceService) → Keeps test (synchronize_service r d)
        unfolding synchronize_service
        synchronize_service-Keeps d s = ground (
          arith,
          reconcile_update_device_service-Keeps updated s,
          reconcile_create_device_service-Keeps fetched s,
        )

        pub after_service_delete-Keeps :
            (q : Result (Unit {0})) → Keeps test (after_service_delete r q)
        unfolding after_service_delete
        after_service_delete-Keeps (error e) s = ground arith
        after_service_delete-Keeps (value _) s =
            ground (arith, synchronize_service-Keeps s.object s)
