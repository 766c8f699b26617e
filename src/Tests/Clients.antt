-- ===== src/Tests/Clients.antt =====
-- The clients of the edge platform, their translations, and the loop over properties at concrete
-- inputs.
use yurt_device_controller.Prelude.{true, false, refl, ne_of_test, [], ◌∷◌, ◌≡◌, inl}
use yurt_device_controller.Prelude.Io.{ok, panic}
use yurt_device_controller.Api.{Device, DeviceProfile, DeviceResource}
use yurt_device_controller.EdgeX.Devices.{to_kube_device, to_edgex_device}
use yurt_device_controller.EdgeX.Devices.Laws.{to_edgex_device-to_kube_device}
use yurt_device_controller.EdgeX.Profiles.{to_kube_device_profile, to_edgex_device_profile}
use yurt_device_controller.EdgeX.Profiles.Laws.{
  translated, to_kube_device_profile-to_edgex_device_profile,
}
use yurt_device_controller.EdgeX.DeviceClient.Readings.{find_get_url}
use yurt_device_controller.EdgeX.DeviceClient.Properties.{known_url, get_command_response_by_name}
use yurt_device_controller.Controllers.Devices.Setup.{setup_with_manager, missing_command_panics}
use yurt_device_controller.Controllers.Devices.Properties.{reconcile_property}
use yurt_device_controller.Tests.Wire.{go, edge_device, client}
use yurt_device_controller.Tests.Samples.{
  sample_device, new_device, begin, cluster, conditions, sample_status, wanted_temperature,
}

to_edgex_device-to_kube_device_example :
    (d : Device) × (to_kube_device go edge_device ≡ ok d)
    × (to_edgex_device d ≡ record edge_device { auto_events = []; created = 0; modified = 0 })
to_edgex_device-to_kube_device_example =
    to_edgex_device-to_kube_device go edge_device "roof" refl (inl refl) (inl refl) (refl, tt)

abbrev resource : DeviceResource
resource = record {
  description = "";
  name = "temperature";
  tag = "";
  is_hidden = true;
  properties = record {
    read_write = "RW";
    minimum = "";
    maximum = "";
    default_value = "";
    mask = "";
    shift = "";
    scale = "";
    offset = "";
    base = "";
    assertion = "";
    media_type = "";
    units = "";
    value_type = "Int16";
  };
  attributes = ("address", "4000") ∷ ("bank", "2") ∷ [];
}

abbrev profile : DeviceProfile
profile = record {
  metadata = sample_device.metadata;
  spec = record {
    node_pool = "hangzhou";
    description = "";
    manufacturer = "";
    model = "";
    labels = [];
    device_resources = resource ∷ [];
    device_commands = [];
  };
  status = record { edge_id = ""; synced = false };
}

to_kube_device_profile-to_edgex_device_profile_example :
    (to_kube_device_profile go (to_edgex_device_profile profile)).spec ≡ translated profile.spec
to_kube_device_profile-to_edgex_device_profile_example =
    to_kube_device_profile-to_edgex_device_profile go profile ((refl, (refl, tt)), tt)

abbrev made : Device
made = record new_device { status = record (new_device.status) { edge_id = "e9"; synced = true } }

missing_command_panics_example :
    (reconcile_property
      (setup_with_manager (client 200) cluster conditions "hangzhou")
      sample_device
      wanted_temperature
      (sample_status, [])
      (begin [] sample_device)).0
    ≡ panic
unfolding known_url get_command_response_by_name find_get_url
missing_command_panics_example =
    missing_command_panics (client 200) cluster conditions "hangzhou" sample_device
      wanted_temperature (sample_status, []) (begin [] sample_device) [] []
      (ne_of_test "21" "" refl) refl refl refl
