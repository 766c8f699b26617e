-- ===== src/Tests/Samples.antt =====
-- Concrete objects, a cluster that takes every write, and an edge platform that keeps its devices
-- in a map.
use yurt_device_controller.Prelude.{String, true, false, none, some, [], ◌∷◌, ◌==◌, if◌then◌else◌}
use yurt_device_controller.Prelude.Dict.{Dict, lookup, insert}
use yurt_device_controller.Prelude.Io.{new_error, value, ok, fail}
use yurt_device_controller.Api.{
  Device, DesiredPropertyState, ActualPropertyState, Condition, ObjectMeta, DeviceSpec,
  DeviceStatus,
}
use yurt_device_controller.Clients.Interface.{DeviceInterface}
use yurt_device_controller.Controllers.Kube.{KubeClient, ConditionsUtil}
use yurt_device_controller.Controllers.Session.{Session}
use yurt_device_controller.Controllers.Devices.Reconciler.{DeviceReconciler}

abbrev pub sample_metadata : ObjectMeta
sample_metadata = record {
  name = "thermostat";
  namespace = "plant";
  labels = [];
  finalizers = "v1alpha1.device.finalizer" ∷ [];
  deletion_timestamp = none;
  resource_version = "7";
}

abbrev pub wanted_temperature : DesiredPropertyState
wanted_temperature = record { name = "temperature"; put_url = ""; desired_value = "21" }

abbrev pub reported_temperature : ActualPropertyState
reported_temperature = record { name = "temperature"; get_url = "u"; actual_value = "19" }

abbrev pub sample_spec : DeviceSpec
sample_spec = record {
  description = "hall";
  admin_state = "UNLOCKED";
  operating_state = "UP";
  protocols = [];
  labels = [];
  location = "";
  service = "modbus";
  profile = "thermo";
  notify = false;
  managed = true;
  node_pool = "hangzhou";
  device_properties = ("temperature", wanted_temperature) ∷ [];
}

abbrev pub sample_status : DeviceStatus
sample_status = record {
  last_connected = 0;
  last_reported = 0;
  synced = true;
  device_properties = some [];
  edge_id = "e1";
  admin_state = "LOCKED";
  operating_state = "DOWN";
  conditions = [];
}

abbrev pub sample_device : Device
sample_device = record { metadata = sample_metadata; spec = sample_spec; status = sample_status }

abbrev pub new_device : Device
new_device = record sample_device {
  status = record sample_status { synced = false; edge_id = ""; device_properties = none };
}

abbrev pub dying_device : Device
dying_device = record sample_device {
  metadata = record sample_metadata { deletion_timestamp = some 5 };
}

abbrev pub unmanaged_device : Device
unmanaged_device = record sample_device { spec = record sample_spec { managed = false } }

abbrev pub renamed_device : Device
renamed_device = record sample_device {
  metadata = record sample_metadata {
    labels = ("device-controller/edgex-object.name", "Thermo_1") ∷ [];
  };
}

-- The devices of the edge platform by name.
abbrev pub Platform : Type 0
Platform = Dict Device

abbrev pub without : String → Platform → Platform
without n [] = []
without n ((k, d) ∷ p) = if n == k then without n p else (k, d) ∷ without n p

abbrev pub edge : DeviceInterface Platform
edge = record {
  create = λ d p.
      let made : Device = record d {
        status = record (d.status) { edge_id = "e9"; synced = true };
      } in
      (ok made, insert (d.metadata.name) made p);
  delete = λ n p. (ok tt, without n p);
  update = λ d p. (ok (some d), p);
  get = λ n p.
      (elim (lookup n p) [ none ↦ fail (new_error ("Device not found")) | some d ↦ ok d ], p);
  list = λ p. (ok [], p);
  get_property_state = λ n d p. (ok (some reported_temperature, none), p);
  update_property_state = λ n d p. (ok tt, p);
  list_properties_state = λ d p. (([], [], none), p);
}

-- An edge platform that cannot be reached.
abbrev pub unreachable : DeviceInterface Platform
unreachable = record edge { get = λ n p. (fail (new_error "connection refused"), p) }

-- An edge platform that refuses new devices.
abbrev pub refusing : DeviceInterface Platform
refusing = record edge { create = λ d p. (fail (new_error "no room"), p) }

abbrev pub cluster : KubeClient Platform Device
cluster = record {
  get = λ n p. (value sample_device, p);
  patch_finalizers =
      λ d fs p. (value (record d { metadata = record (d.metadata) { finalizers = fs } }), p);
  update_status = λ d p. (value d, p);
  create = λ d p. (value tt, p);
  delete = λ d p. (value tt, p);
  list = λ pool namespace p. (value [], p);
}

abbrev condition : String → String → Condition
condition kind status = record {
  kind = kind;
  status = status;
  severity = "";
  reason = "";
  message = "";
}

abbrev pub conditions : ConditionsUtil
conditions = record {
  mark_true = λ kind cs. condition kind "True" ∷ cs;
  mark_false = λ kind reason severity message cs. condition kind "False" ∷ cs;
  set_summary = λ kinds cs. condition "Ready" "True" ∷ cs;
}

abbrev pub reconciler : DeviceReconciler Platform
reconciler = record {
  client = cluster;
  conditions = conditions;
  device_cli = edge;
  node_pool = "hangzhou";
}

abbrev pub begin : Platform → Device → Session Platform Device
begin p d = record { world = p; object = d; trace = [] }
