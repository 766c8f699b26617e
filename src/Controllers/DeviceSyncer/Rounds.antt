-- ===== src/Controllers/DeviceSyncer/Rounds.antt =====
-- What a round does with one device, and when its loops stop.
use yurt_device_controller.Prelude.{◌≡◌, arith, eq_iff, [], ◌∷◌, some, false}
use yurt_device_controller.Prelude.Dict.{Dict}
use yurt_device_controller.Prelude.Io.{ok, fail, Error, error, is_conflict, is_already_exists}
use yurt_device_controller.Api.{Device}
use yurt_device_controller.EdgeX.Dto.{EdgeXDevice}
use yurt_device_controller.EdgeX.Names.{
  GoText, get_edgex_name, edgex_object_name, get_edge_device_name,
}
use yurt_device_controller.EdgeX.Devices.{to_kube_device}
use yurt_device_controller.EdgeX.DeviceClient.{device_interface}
use yurt_device_controller.EdgeX.DeviceClient.Client.{EdgexDeviceClient}
use yurt_device_controller.EdgeX.DeviceClient.Properties.{get_command_response_by_name, failed_list}
use yurt_device_controller.Controllers.DeviceSyncer.{
  DeviceSyncer, actual_name, complete_create_content, complete_update_content, sync_edge_to_kube,
  update_devices,
}

module _ {W : Type 0} (ds : DeviceSyncer W) where
  -- The resource that is created for a device of the edge platform has, as its name there, the name
  -- of that device, although its own name is translated and prefixed: later rounds match the two.
  pub created_device_keeps_name :
      (go : GoText) (ed : EdgeXDevice) (d : Device)
      → to_kube_device go ed ≡ ok d
      → actual_name (complete_create_content ds d) ≡ ed.name
  unfolding get_edge_device_name complete_create_content to_kube_device
  created_device_keeps_name go ed d made =
      ground (arith, eq_iff edgex_object_name edgex_object_name)

  -- The creation of resources never fails because one of them is there already.
  sync_edge_to_kube-error :
      (m : Dict Device) (w : W) {e : Error}
      → (sync_edge_to_kube ds m w).0 ≡ error e
      → is_already_exists e ≡ false
  unfolding sync_edge_to_kube
  sync_edge_to_kube-error [] w h = cc
  sync_edge_to_kube-error ((k, d) ∷ rest) w {e} h =
      let (r, w') = ds.client.create d w in ground (arith, sync_edge_to_kube-error rest w' {e = e})

  -- The updates of a round never fail because of a conflict.
  update_devices-error :
      (m : Dict Device) (w : W) {e : Error}
      → (update_devices ds m w).0 ≡ error e
      → is_conflict e ≡ false
  unfolding update_devices
  update_devices-error [] w h = cc
  update_devices-error ((k, d) ∷ rest) w {e} h =
      let (r, w') = ds.client.update_status d w in
      ground (arith, update_devices-error rest w' {e = e})

  -- With the client of the edge platform: where the commands of a device cannot be read, the updated
  -- resource has no properties any more, whatever the cluster knew of them.
  pub failed_commands_erase_properties :
      (efc : EdgexDeviceClient W) (kd ed : Device) (w w' : W) (e : Error)
      → get_command_response_by_name efc (get_edgex_name kd.metadata) w ≡ (fail e, w')
      → (complete_update_content
          (record ds { device_cli = device_interface efc })
          kd
          ed
          w).0.status.device_properties
        ≡ some []
  unfolding complete_update_content
  failed_commands_erase_properties efc kd ed w w' e failed =
      ground (arith, failed_list efc kd w w' e failed)
