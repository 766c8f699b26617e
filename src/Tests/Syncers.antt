-- ===== src/Tests/Syncers.antt =====
-- The syncers at concrete inputs.
use yurt_device_controller.EdgeX.Names.{
  GoText, get_edge_device_service_name, get_edge_device_profile_name, edgex_object_name,
  to_kube_name, get_edge_device_name,
}
use yurt_device_controller.EdgeX.Names.Laws.{to_kube_name_is_plain, has_any}
use yurt_device_controller.Prelude.{none, false, refl, [], ◌∷◌, some, ◌≡◌}
use yurt_device_controller.Prelude.Dict.{contains, lookup}
use yurt_device_controller.Prelude.Io.{new_error}
use yurt_device_controller.Api.{Device, DeviceService}
use yurt_device_controller.EdgeX.Dto.{EdgeXDeviceService}
use yurt_device_controller.EdgeX.DeviceClient.Properties.{get_command_response_by_name}
use yurt_device_controller.Controllers.DeviceSyncer.{
  DeviceSyncer, find_diff_device, complete_update_content,
}
use yurt_device_controller.Controllers.DeviceSyncer.Diff.{find_diff_device_by_name}
use yurt_device_controller.Tests.Samples.{
  sample_device, renamed_device, cluster, sample_status, reported_temperature, Platform, edge,
}
use yurt_device_controller.Tests.Wire.{go, client}
use yurt_device_controller.EdgeX.DeviceClient.{device_interface}
use yurt_device_controller.Controllers.Differences.{find_differences, keyed_by_name}
use yurt_device_controller.Controllers.DeviceSyncer.Rounds.{failed_commands_erase_properties}
use yurt_device_controller.Controllers.DeviceServiceSyncer.{DeviceServiceSyncer, service_contents}
use yurt_device_controller.Controllers.DeviceServiceSyncer.Rounds.{
  matched_service_is_updated, by_edge_name,
}
use yurt_device_controller.Tests.Services.{service, service_cluster, service_edge}

abbrev syncer : DeviceSyncer Platform
syncer = record {
  client = cluster;
  node_pool = "hangzhou";
  device_cli = edge;
  sync_period = 5;
  namespace = "plant";
}

find_diff_device_by_name_example :
    contains "thermostat"
      (find_diff_device syncer
        (("Thermo_1", renamed_device) ∷ [])
        (("thermostat", sample_device) ∷ [])
        []).0.2
    ≡ false
unfolding yurt_device_controller.EdgeX.Names.get_edge_device_name
find_diff_device_by_name_example =
    (find_diff_device_by_name syncer (("Thermo_1", renamed_device) ∷ [])
      (("thermostat", sample_device) ∷ []) [] "thermostat" (refl, tt) (refl, tt) (refl, tt)
      (refl, tt)).2

-- The command service answers with status 404, although the resource shows a property.
abbrev shown_device : Device
shown_device = record sample_device {
  status = record sample_status {
    device_properties = some (("temperature", reported_temperature) ∷ []);
  };
}

failed_commands_erase_properties_example :
    (complete_update_content
      (record syncer { device_cli = device_interface (client 404) })
      shown_device
      sample_device
      []).0.status.device_properties
    ≡ some []
unfolding get_command_response_by_name
failed_commands_erase_properties_example =
    failed_commands_erase_properties syncer (client 404) shown_device sample_device [] []
      (new_error "Item not found") refl

abbrev service_syncer : DeviceServiceSyncer Platform
service_syncer = record {
  client = service_cluster;
  device_service_cli = service_edge;
  node_pool = "hangzhou";
  sync_period = 5;
  namespace = "plant";
}

abbrev pub edge_service : EdgeXDeviceService
edge_service = record {
  id = "s1";
  name = "Modbus_TCP";
  description = "";
  last_connected = 1;
  last_reported = 2;
  labels = [];
  admin_state = "LOCKED";
  base_address = "http://modbus:59901";
}

abbrev remote_service : DeviceService
remote_service = record service {
  status = record (service.status) { admin_state = "LOCKED"; last_connected = 9 };
}

matched_service_is_updated_example :
    lookup "modbus"
      (find_differences
        (service_contents service_syncer)
        (by_edge_name service_syncer (remote_service ∷ []))
        (by_edge_name service_syncer (service ∷ []))).1
    ≡ none
unfolding get_edge_device_service_name keyed_by_name
matched_service_is_updated_example =
    (matched_service_is_updated service_syncer (remote_service ∷ []) (service ∷ []) "modbus"
      remote_service service refl refl).1

abbrev plain_text : GoText
plain_text = record go { wide_lower = λ c. "x" }

to_kube_name_is_plain_example : has_any "_" (to_kube_name plain_text "Thermo_1") ≡ false
to_kube_name_is_plain_example = (to_kube_name_is_plain plain_text "Thermo_1" (λ c other. refl)).0

-- Two names on the edge platform that become one name in the cluster.
to_kube_name_collision : to_kube_name go "Thermo_1" ≡ to_kube_name go "thermo-1"
unfolding to_kube_name
to_kube_name_collision = refl
