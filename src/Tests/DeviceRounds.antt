-- ===== src/Tests/DeviceRounds.antt =====
-- Rounds of the syncer of devices over a cluster that keeps its resources in a map.
use yurt_device_controller.Prelude.{is_some, List, ◌≢◌, ◌≡◌, refl, [], ◌∷◌, true, false, none}
use yurt_device_controller.Prelude.Dict.{Dict}
use yurt_device_controller.Prelude.Io.{Io, ok, fail, panic, value, new_error}
use yurt_device_controller.Api.{Device}
use yurt_device_controller.Clients.Interface.{DeviceInterface}
use yurt_device_controller.EdgeX.Dto.{EdgeXDevice, float64}
use yurt_device_controller.EdgeX.Names.{get_edge_device_name, to_kube_name}
use yurt_device_controller.EdgeX.Devices.{to_kube_device, to_kube_protocols}
use yurt_device_controller.EdgeX.DeviceClient.{device_interface}
use yurt_device_controller.EdgeX.DeviceClient.Client.{EdgexDeviceClient}
use yurt_device_controller.Controllers.Loops.{repeat}
use yurt_device_controller.Controllers.DeviceSyncer
use yurt_device_controller.Controllers.DeviceSyncer.{
  DeviceSyncer, actual_name, by_name, complete_create_content,
}
use yurt_device_controller.Controllers.Differences.Rounds.{IsCreatable}
use yurt_device_controller.Controllers.DeviceSyncer.Convergence.{
  IsSame, kube_name, device_round_converges,
}
use yurt_device_controller.Controllers.DeviceSyncer.Loop.{loop_recovers}
use yurt_device_controller.Controllers.DeviceSyncer.Locations.{odd_location_panics}
use yurt_device_controller.Tests.Samples.{sample_device, edge}
use yurt_device_controller.Tests.Wire.{go, edge_device, client, codec}
use yurt_device_controller.Tests.Steady.{store, stored, store-Steady, single-IsCreatable}

-- What the client makes of the one device of the edge platform.
abbrev listed_device : Device
listed_device = record {
  metadata = record {
    name = to_kube_name go "Thermo_1";
    namespace = "default";
    labels = ("device-controller/edgex-object.name", "Thermo_1") ∷ [];
    finalizers = [];
    deletion_timestamp = none;
    resource_version = "";
  };
  spec = record {
    description = "hall";
    admin_state = "LOCKED";
    operating_state = "UP";
    protocols = to_kube_protocols edge_device.protocols;
    labels = [];
    location = "roof";
    service = "modbus";
    profile = "thermo";
    notify = false;
    managed = false;
    node_pool = "";
    device_properties = [];
  };
  status = record {
    last_connected = 3;
    last_reported = 4;
    synced = true;
    device_properties = none;
    edge_id = "e1";
    admin_state = "LOCKED";
    operating_state = "UP";
    conditions = [];
  };
}

abbrev device_syncer : DeviceSyncer (Dict Device)
device_syncer = record {
  client = store actual_name kube_name;
  node_pool = "hangzhou";
  device_cli = record edge { list = λ m. (ok (listed_device ∷ []), m) };
  sync_period = 5;
  namespace = "plant";
}

nothing_changes :
    (cli : DeviceInterface (Dict Device)) (d : Device) (m : Dict Device)
    → IsSame
        (record device_syncer { device_cli = cli })
        (stored actual_name kube_name)
        (store-Steady actual_name kube_name)
        m
        m
nothing_changes cli d m = record { stood = λ k. refl; refused = λ n. refl; single = refl }

new-IsCreatable :
    IsCreatable
      (λ d. kube_name (complete_create_content device_syncer d))
      ((store-Steady actual_name kube_name).refuses (("thermostat", sample_device) ∷ []))
      (by_name [] (listed_device ∷ []))
      (by_name [] (sample_device ∷ []))
unfolding get_edge_device_name by_name complete_create_content to_kube_name
new-IsCreatable = single-IsCreatable _ _ "Thermo_1" listed_device _ refl

device_round_converges_example :
    (m : Dict Device) × (DeviceSyncer.sync_round device_syncer (("thermostat", sample_device) ∷ [])
      ≡ (ok tt, m))
    × (is_some (stored actual_name kube_name m "Thermo_1") ≡ true)
    × (is_some (stored actual_name kube_name m "thermostat") ≡ false)
unfolding get_edge_device_name by_name to_kube_device
device_round_converges_example =
    let start = ("thermostat", sample_device) ∷ [] in
    let (m, returns, after) =
      device_round_converges device_syncer (stored actual_name kube_name)
        (store-Steady actual_name kube_name) (nothing_changes device_syncer.device_cli) go
        (listed_device ∷ []) (sample_device ∷ []) start start start ((edge_device, refl), tt) refl
        refl new-IsCreatable refl (λ k. refl) in
    (m, returns, after "Thermo_1", after "thermostat")

-- The location is a number.
abbrev odd_device : EdgeXDevice
odd_device = record edge_device { location = float64 4 }

abbrev odd_client : EdgexDeviceClient (Dict Device)
odd_client = record (client 200) {
  codec = record codec { decode_devices = λ body. value (edge_device ∷ odd_device ∷ []) };
}

odd_location_panics_example :
    (DeviceSyncer.sync_round
      (record device_syncer { device_cli = device_interface odd_client })
      []).0
    ≡ panic
odd_location_panics_example =
    odd_location_panics device_syncer odd_client [] [] (record { status_code = 200; body = "" })
      (edge_device ∷ odd_device ∷ []) refl refl

-- The first time, the edge platform cannot be reached.
abbrev flaky_list : Io (Dict Device) (List Device)
flaky_list [] = (fail (new_error "connection refused"), ("thermostat", sample_device) ∷ [])
flaky_list (e ∷ m) = (ok (listed_device ∷ []), e ∷ m)

flaky_list-calm : (m : Dict Device) → (flaky_list m).0 ≢ panic
flaky_list-calm [] h = cc
flaky_list-calm (e ∷ m) h = cc

abbrev flaky_syncer : DeviceSyncer (Dict Device)
flaky_syncer = record device_syncer { device_cli = record edge { list = flaky_list } }

loop_recovers_example :
    (m : Dict Device) × (DeviceSyncer.run flaky_syncer 2 [] ≡ (ok tt, m))
    × (is_some (stored actual_name kube_name m "Thermo_1") ≡ true)
    × (is_some (stored actual_name kube_name m "thermostat") ≡ false)
unfolding get_edge_device_name by_name to_kube_device DeviceSyncer.run DeviceSyncer.sync_round
    DeviceSyncer.get_all_devices repeat complete_create_content
loop_recovers_example =
    let start = ("thermostat", sample_device) ∷ [] in
    let (m, returns, after) =
      loop_recovers flaky_syncer (stored actual_name kube_name) (store-Steady actual_name kube_name)
        (nothing_changes flaky_syncer.device_cli) flaky_list-calm go (listed_device ∷ [])
        (sample_device ∷ []) 1 [] start start ((edge_device, refl), tt) refl refl new-IsCreatable
        refl (λ k. refl) in
    (m, returns, after "Thermo_1", after "thermostat")
