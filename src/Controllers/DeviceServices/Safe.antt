-- ===== src/Controllers/DeviceServices/Safe.antt =====
-- The reconciler and the syncer of device services do not panic over the client of EdgeX.
use yurt_device_controller.Prelude.{String, ◌≡◌, arith, false, []}
use yurt_device_controller.Prelude.Safe.{Returns, panicked, Safe, Safe-deferred}
use yurt_device_controller.Api.{DeviceService, DeviceServiceStatus}
use yurt_device_controller.EdgeX.Http.{HasEntries}
use yurt_device_controller.EdgeX.Names.{edgex_object_name, get_edge_device_service_name}
use yurt_device_controller.EdgeX.ServiceClient.{EdgexDeviceServiceClient, service_interface}
use yurt_device_controller.EdgeX.ServiceClient.Safe.{
  create_service-Safe, delete_service-Safe, update_service-Safe, get_service-Safe,
  list_services-Safe,
}
use yurt_device_controller.Controllers.Session.{Session, patch, write_status}
use yurt_device_controller.Controllers.DeviceServices.Lifecycle.{
  DeviceServiceReconciler, remove_service, reconcile_delete_device_service, add_service,
  adopt_service, reconcile_create_device_service,
}
use yurt_device_controller.Controllers.DeviceServices.Reconcile.{
  update_device_service, finish_service_update, reconcile_update_device_service,
  update_service_conditions, synchronize_service, after_service_delete, reconcile_service,
  reconcile_loaded, reconcile,
}
use yurt_device_controller.Controllers.DeviceServiceSyncer as Syncer

module _ {W : Type 0} (r₀ : DeviceServiceReconciler W) (eds : EdgexDeviceServiceClient W) where
  abbrev pub over_edgex : DeviceServiceReconciler W
  over_edgex = record r₀ { device_service_cli = service_interface eds }

  module _ (entries : HasEntries eds.http eds.codec) where
    remove_service-Safe : (name : String) → Safe (remove_service over_edgex name)
    unfolding remove_service patch
    remove_service-Safe name s = grind (arith, delete_service-Safe eds)

    reconcile_delete-Safe : Safe (reconcile_delete_device_service over_edgex)
    unfolding reconcile_delete_device_service patch
    reconcile_delete-Safe s =
        ground
          (arith, remove_service-Safe (get_edge_device_service_name s.object edgex_object_name) s)

    add_service-Safe : (d : DeviceService) → Safe (add_service over_edgex d)
    unfolding add_service write_status
    add_service-Safe d s = ground (arith, create_service-Safe eds d entries s.world)

    adopt_service-Safe : (id : String) → Safe (adopt_service over_edgex id)
    unfolding adopt_service write_status
    adopt_service-Safe id s = ground arith

    reconcile_create-Safe : Safe (reconcile_create_device_service over_edgex)
    unfolding reconcile_create_device_service
    reconcile_create-Safe s =
        let name = get_edge_device_service_name s.object edgex_object_name in
        grind (arith, get_service-Safe eds name s.world, add_service-Safe, adopt_service-Safe)

    finish_service_update-Safe :
        (st : DeviceServiceStatus) → Safe (finish_service_update over_edgex st)
    unfolding finish_service_update write_status
    finish_service_update-Safe st s = ground arith

    reconcile_update-Safe : Safe (reconcile_update_device_service over_edgex)
    unfolding reconcile_update_device_service
    reconcile_update-Safe s = grind (
      arith,
      update_service-Safe eds (update_device_service s.object) s.world,
      finish_service_update-Safe,
    )

    update_service_conditions-Safe : Safe (update_service_conditions over_edgex)
    unfolding update_service_conditions write_status
    update_service_conditions-Safe s = ground arith

    synchronize_service-Safe : (d : DeviceService) → Safe (synchronize_service over_edgex d)
    unfolding synchronize_service
    synchronize_service-Safe d s = ground (arith, reconcile_update-Safe s, reconcile_create-Safe s)

    reconcile_service-Safe : Safe (reconcile_service over_edgex)
    unfolding reconcile_service after_service_delete
    reconcile_service-Safe s = grind (arith, reconcile_delete-Safe s, synchronize_service-Safe)

    loaded-Safe : (w : W) (d : DeviceService) → panicked (reconcile_loaded over_edgex w d).0 ≡ false
    unfolding reconcile_loaded
    loaded-Safe w d =
        let s : Session W DeviceService = record { world = w; object = d; trace = [] } in
        ground (
          arith,
          Safe-deferred (update_service_conditions over_edgex) (reconcile_service over_edgex)
              update_service_conditions-Safe reconcile_service-Safe s,
        )

    pub reconcile-Safe : (name : String) → Safe (reconcile over_edgex name)
    unfolding reconcile
    reconcile-Safe name w = grind (arith, loaded-Safe)

pub sync_round-Returns :
    {W : Type 0} (ds : Syncer.DeviceServiceSyncer W) (eds : EdgexDeviceServiceClient W)
    → Returns (Syncer.sync_round (record ds { device_service_cli = service_interface eds }))
unfolding Syncer.sync_round Syncer.get_all_device_services
sync_round-Returns ds eds w = ground (arith, list_services-Safe eds w)
