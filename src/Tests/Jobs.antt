-- ===== src/Tests/Jobs.antt =====
-- All parts of the program over one small platform.
use yurt_device_controller.Prelude.{
  ◌≡◌, refl, ap, subst, String, false, Option, some, List, [], ◌∷◌,
}
use yurt_device_controller.Prelude.Io.{ok, Result, value, error, new_error}
use yurt_device_controller.Api.{Device}
use yurt_device_controller.EdgeX.Http.{Http, HasEntries, IdResponse}
use yurt_device_controller.EdgeX.DeviceClient.{device_interface}
use yurt_device_controller.EdgeX.DeviceClient.Locations.{has_odd_location}
use yurt_device_controller.EdgeX.ServiceClient.{EdgexDeviceServiceClient, service_interface}
use yurt_device_controller.EdgeX.ProfileClient.{EdgexDeviceProfile, profile_interface}
use yurt_device_controller.Controllers.Session.{any}
use yurt_device_controller.EdgeX.DeviceClient.Readings.{
  find_get_url, status_error, get_property_value_from_event, value_of_reading, object_text,
}
use yurt_device_controller.EdgeX.DeviceClient.Properties.{
  known_url, get_property_state, get_command_response_by_name,
}
use yurt_device_controller.Controllers.Kube.{KubeClient}
use yurt_device_controller.Controllers.Devices.Safe.{CanRead}
use yurt_device_controller.Controllers.Jobs.{
  Parts, IsSane, work_all, devices_over_edgex, device_request, service_request, profile_request,
  device_round, service_round, profile_round, all_jobs_end,
}
use yurt_device_controller.Tests.Samples.{sample_device, conditions}
use yurt_device_controller.Tests.Commands.{
  command_client, plain_codec, one_command, text_reconciler, any_cluster,
}
use yurt_device_controller.Tests.Wire.{go, edge_device}

-- A cluster without objects of the kind.
abbrev empty_cluster : {T : Type 0} → KubeClient String T
empty_cluster = record {
  get = λ n w. (error (new_error "refused"), w);
  patch_finalizers = λ d fs w. (error (new_error "refused"), w);
  update_status = λ d w. (error (new_error "refused"), w);
  create = λ d w. (value tt, w);
  delete = λ d w. (value tt, w);
  list = λ pool namespace w. (value [], w);
}

abbrev service_client : EdgexDeviceServiceClient String
service_client = record {
  http = one_command;
  codec = plain_codec;
  go = go;
  core_meta_addr = "meta:59881";
}

abbrev profile_client : EdgexDeviceProfile String
profile_client = record {
  http = one_command;
  codec = plain_codec;
  go = go;
  core_meta_addr = "meta:59881";
}

abbrev whole : Parts String
whole = record {
  devices = command_client;
  services = service_client;
  profiles = profile_client;
  device_reconciler = text_reconciler;
  service_reconciler = record {
    client = empty_cluster;
    conditions = conditions;
    device_service_cli = service_interface service_client;
    node_pool = "hangzhou";
  };
  profile_reconciler = record {
    client = empty_cluster;
    edge_client = profile_interface profile_client;
    node_pool = "hangzhou";
  };
  device_syncer = record {
    client = any_cluster;
    node_pool = "hangzhou";
    device_cli = device_interface command_client;
    sync_period = 5;
    namespace = "plant";
  };
  service_syncer = record {
    client = empty_cluster;
    device_service_cli = service_interface service_client;
    node_pool = "hangzhou";
    sync_period = 5;
    namespace = "plant";
  };
  profile_syncer = record {
    client = empty_cluster;
    sync_period = 5;
    node_pool = "hangzhou";
    edge_client = profile_interface profile_client;
    namespace = "plant";
  };
}

-- The value of an answer, or another device.
abbrev value_or : {A : Type 0} → A → Result A → A
value_or a (value b) = b
value_or a (error e) = a

abbrev DesiresReadable : Device → Type 0
DesiresReadable d = CanRead (devices_over_edgex whole) d d.spec.device_properties

sample-DesiresReadable : DesiresReadable sample_device
unfolding get_property_state known_url get_command_response_by_name find_get_url status_error
    get_property_value_from_event value_of_reading object_text
sample-DesiresReadable = (λ w. refl, tt)

given-DesiresReadable : (d : Device) → value sample_device ≡ value d → DesiresReadable d
given-DesiresReadable d e =
    subst DesiresReadable (ap (value_or sample_device) e) sample-DesiresReadable

entries_given : {W : Type 0} (http : Http W) → HasEntries http plain_codec
entries_given http url body w resp sent e = subst Full (ap (value_or []) e) tt
  where
    Full : List (Option IdResponse) → Type 0
    Full (some i ∷ is) = Unit
    Full _ = ⊥

whole-IsSane : IsSane whole
whole-IsSane = record {
  device_entries = entries_given command_client.http;
  service_entries = entries_given service_client.http;
  profile_entries = entries_given profile_client.http;
  locations = record {
    one = λ url w resp ed sent e.
        subst (λ d. has_odd_location d ≡ false) (ap (value_or edge_device) e) refl;
    all = λ url w resp eds sent e.
        subst (λ ds. any has_odd_location ds ≡ false) (ap (value_or []) e) refl;
  };
  readable = record {
    loads = λ n w d e. given-DesiresReadable d e;
    patches = λ d d' fs w e. given-DesiresReadable d' e;
  };
}

all_jobs_end_example :
    (work_all whole
      (device_request "thermostat"
        ∷ service_round
        ∷ profile_request "thermo"
        ∷ device_round
        ∷ service_request "modbus"
        ∷ profile_round
        ∷ [])
      "19").0
    ≡ ok tt
all_jobs_end_example =
    all_jobs_end whole whole-IsSane
      (device_request "thermostat"
        ∷ service_round
        ∷ profile_request "thermo"
        ∷ device_round
        ∷ service_request "modbus"
        ∷ profile_round
        ∷ [])
      "19"
