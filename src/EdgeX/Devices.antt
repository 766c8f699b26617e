-- ===== src/EdgeX/Devices.antt =====
-- Devices between the platforms (pkg/clients/edgex-foundry/util.go).
pub mod Laws
use yurt_device_controller.Prelude.{
  String, List, [], ◌∷◌, none, some, true, false, ◌==◌, if◌then◌else◌,
}
use yurt_device_controller.Prelude.Dict.{Dict, fill}
use yurt_device_controller.Prelude.Io.{Outcome, ok, panic}
use yurt_device_controller.Api.{
  AdminState, OperatingState, locked, unlocked, unknown_state, up, down, Device, ObjectMeta,
  ProtocolProperties,
}
use yurt_device_controller.EdgeX.Dto.{Any, nil, text, EdgeXDevice, EdgeXUpdateDevice, Request}
use yurt_device_controller.EdgeX.Names.{GoText, edgex_object_name, to_kube_name, get_edgex_name}

-- `APIVersionV2`
abbrev pub api_version_v2 : String
api_version_v2 = "v2"

-- The properties of one protocol only change the name of their type.
unfoldable pub to_edgex_protocols : Dict ProtocolProperties → Dict (Dict String)
to_edgex_protocols pps = fill (λ v. v) [] pps

unfoldable pub to_kube_protocols : Dict (Dict String) → Dict ProtocolProperties
to_kube_protocols eps = fill (λ v. v) [] eps

unfoldable pub to_edgex_admin_state : AdminState → String
to_edgex_admin_state state = if state == locked then "LOCKED" else "UNLOCKED"

unfoldable pub to_edgex_operating_state : OperatingState → String
to_edgex_operating_state state =
    if state == up then "UP" else if state == down then "DOWN" else "UNKNOWN"

-- An empty edge id is the zero value that `md.Id` has anyway. The events and the times are not set.
unfoldable pub to_edgex_device : Device → EdgeXDevice
to_edgex_device d = record {
  id = d.status.edge_id;
  name = get_edgex_name d.metadata;
  description = d.spec.description;
  admin_state = to_edgex_admin_state d.spec.admin_state;
  operating_state = to_edgex_operating_state d.spec.operating_state;
  protocols = to_edgex_protocols d.spec.protocols;
  last_connected = d.status.last_connected;
  last_reported = d.status.last_reported;
  labels = d.spec.labels;
  location = text d.spec.location;
  service_name = d.spec.service;
  profile_name = d.spec.profile;
  auto_events = [];
  created = 0;
  modified = 0;
}

unfoldable pub to_edgex_update_device : Device → EdgeXUpdateDevice
to_edgex_update_device d = record {
  id = if d.status.edge_id == "" then none else some d.status.edge_id;
  name = some d.metadata.name;
  description = some d.spec.description;
  admin_state = some (to_edgex_admin_state d.spec.admin_state);
  operating_state = some (to_edgex_operating_state d.spec.operating_state);
  protocols = to_edgex_protocols d.spec.protocols;
  last_connected = some d.status.last_connected;
  last_reported = some d.status.last_reported;
  labels = d.spec.labels;
  location = text d.spec.location;
  service_name = some d.spec.service;
  profile_name = some d.spec.profile;
  notify = some d.spec.notify;
}

-- `if ed.Location != nil { loc = ed.Location.(string) }`
abbrev kube_location : Any → Outcome String
kube_location nil = ok ""
kube_location (text s) = ok s
kube_location _ = panic

abbrev kube_metadata : GoText → String → ObjectMeta
kube_metadata go name = record {
  name = to_kube_name go name;
  namespace = "default";
  labels = (edgex_object_name, name) ∷ [];
  finalizers = [];
  deletion_timestamp = none;
  resource_version = "";
}

-- `toKubeDevice` past the type assertion
kube_device : GoText → EdgeXDevice → String → Device
kube_device go ed loc = record {
  metadata = kube_metadata go ed.name;
  spec = record {
    description = ed.description;
    admin_state = ed.admin_state;
    operating_state = ed.operating_state;
    protocols = to_kube_protocols ed.protocols;
    labels = ed.labels;
    location = loc;
    service = ed.service_name;
    profile = ed.profile_name;
    notify = false;
    managed = false;
    node_pool = "";
    device_properties = [];
  };
  status = record {
    last_connected = ed.last_connected;
    last_reported = ed.last_reported;
    synced = true;
    device_properties = none;
    edge_id = ed.id;
    admin_state = ed.admin_state;
    operating_state = ed.operating_state;
    conditions = [];
  };
}

unfoldable pub to_kube_device : GoText → EdgeXDevice → Outcome Device
unfolding kube_device
to_kube_device go ed = elim (kube_location ed.location) [
  | ok loc ↦ ok (kube_device go ed loc)
  | _ ↦ panic
]

-- `makeEdgeXDeviceRequest` and `makeEdgeXDeviceUpdateRequest`
unfoldable pub make_edgex_device_request : List Device → List (Request EdgeXDevice)
make_edgex_device_request [] = []
make_edgex_device_request (dev ∷ devs) =
    record { api_version = api_version_v2; payload = to_edgex_device dev }
    ∷ make_edgex_device_request devs

unfoldable pub make_edgex_device_update_request : List Device → List (Request EdgeXUpdateDevice)
make_edgex_device_update_request [] = []
make_edgex_device_update_request (dev ∷ devs) =
    record { api_version = api_version_v2; payload = to_edgex_update_device dev }
    ∷ make_edgex_device_update_request devs
