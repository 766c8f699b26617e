-- ===== src/EdgeX/Profiles.antt =====
-- Device profiles between the platforms (pkg/clients/edgex-foundry/util.go). The loops over
-- slices are recursions on lists; those that fill a map insert entry by entry.
pub mod Laws
use yurt_device_controller.Prelude.{String, Option, List, [], ◌∷◌, none, some, true, false}
use yurt_device_controller.Prelude.Dict.{Dict, insert, fill}
use yurt_device_controller.Api.{
  DeviceProfile, DeviceResource, ResourceProperties, DeviceCommand, ResourceOperation,
}
use yurt_device_controller.EdgeX.Dto.{
  Any, nil, text, int, float64, stringer, other, Request, EdgeXDeviceProfile, EdgeXDeviceResource,
  EdgeXResourceProperties, EdgeXDeviceCommand, EdgeXResourceOperation,
}
use yurt_device_controller.EdgeX.Names.{GoText, edgex_object_name, to_kube_name, get_edgex_name}
use yurt_device_controller.EdgeX.Devices.{api_version_v2}

unfoldable pub to_edgex_profile_property : ResourceProperties → EdgeXResourceProperties
to_edgex_profile_property pp = record {
  read_write = pp.read_write;
  minimum = pp.minimum;
  maximum = pp.maximum;
  default_value = pp.default_value;
  mask = pp.mask;
  shift = pp.shift;
  scale = pp.scale;
  offset = pp.offset;
  base = pp.base;
  assertion = pp.assertion;
  media_type = pp.media_type;
  units = pp.units;
  value_type = pp.value_type;
}

unfoldable pub to_kube_profile_property : EdgeXResourceProperties → ResourceProperties
to_kube_profile_property rp = record {
  read_write = rp.read_write;
  minimum = rp.minimum;
  maximum = rp.maximum;
  default_value = rp.default_value;
  mask = rp.mask;
  shift = rp.shift;
  scale = rp.scale;
  offset = rp.offset;
  base = rp.base;
  assertion = rp.assertion;
  media_type = rp.media_type;
  units = rp.units;
  value_type = rp.value_type;
}

-- `toEdgeXDeviceResource`, which leaves `IsHidden` at its zero value
unfoldable pub to_edgex_device_resource : DeviceResource → EdgeXDeviceResource
unfolding to_edgex_profile_property
to_edgex_device_resource dr = record {
  description = dr.description;
  name = dr.name;
  tag = dr.tag;
  is_hidden = false;
  properties = to_edgex_profile_property dr.properties;
  attributes = fill text [] dr.attributes;
}

unfoldable pub to_edgex_device_resource_slice : List DeviceResource → List EdgeXDeviceResource
unfolding to_edgex_device_resource
to_edgex_device_resource_slice [] = []
to_edgex_device_resource_slice (dr ∷ drs) =
    to_edgex_device_resource dr ∷ to_edgex_device_resource_slice drs

-- The type switch: the text of a value, if it has one of the listed types.
unfoldable pub attr_text : GoText → Any → Option String
attr_text go (text s) = some s
attr_text go (int n) = some (go.format_int n)
attr_text go (float64 x) = some (go.format_float x)
attr_text go (stringer s) = some s
attr_text go nil = none
attr_text go other = none

abbrev set_attr : String → Option String → Dict String → Dict String
set_attr k (some s) ret = insert k s ret
set_attr k none ret = ret

concrete_attrs : GoText → Dict String → Dict Any → Dict String
unfolding attr_text
concrete_attrs go ret [] = ret
concrete_attrs go ret ((k, v) ∷ rest) = concrete_attrs go (set_attr k (attr_text go v) ret) rest

unfoldable pub to_kube_device_resource : GoText → EdgeXDeviceResource → DeviceResource
unfolding concrete_attrs to_kube_profile_property
to_kube_device_resource go dr = record {
  description = dr.description;
  name = dr.name;
  tag = dr.tag;
  is_hidden = dr.is_hidden;
  properties = to_kube_profile_property dr.properties;
  attributes = concrete_attrs go [] dr.attributes;
}

unfoldable pub to_kube_device_resources : GoText → List EdgeXDeviceResource → List DeviceResource
unfolding to_kube_device_resource
to_kube_device_resources go [] = []
to_kube_device_resources go (dr ∷ drs) =
    to_kube_device_resource go dr ∷ to_kube_device_resources go drs

unfoldable pub to_kube_resource_operations : List EdgeXResourceOperation → List ResourceOperation
to_kube_resource_operations [] = []
to_kube_resource_operations (ro ∷ ros) =
    record {
      device_resource = ro.device_resource;
      mappings = ro.mappings;
      default_value = ro.default_value;
    }
    ∷ to_kube_resource_operations ros

unfoldable pub to_edgex_resource_operations : List ResourceOperation → List EdgeXResourceOperation
to_edgex_resource_operations [] = []
to_edgex_resource_operations (ro ∷ ros) =
    record {
      device_resource = ro.device_resource;
      mappings = ro.mappings;
      default_value = ro.default_value;
    }
    ∷ to_edgex_resource_operations ros

unfoldable pub to_kube_device_command : List EdgeXDeviceCommand → List DeviceCommand
unfolding to_kube_resource_operations
to_kube_device_command [] = []
to_kube_device_command (dc ∷ dcs) =
    record {
      name = dc.name;
      is_hidden = dc.is_hidden;
      read_write = dc.read_write;
      resource_operations = to_kube_resource_operations dc.resource_operations;
    }
    ∷ to_kube_device_command dcs

unfoldable pub to_edgex_device_command : List DeviceCommand → List EdgeXDeviceCommand
unfolding to_edgex_resource_operations
to_edgex_device_command [] = []
to_edgex_device_command (dc ∷ dcs) =
    record {
      name = dc.name;
      is_hidden = dc.is_hidden;
      read_write = dc.read_write;
      resource_operations = to_edgex_resource_operations dc.resource_operations;
    }
    ∷ to_edgex_device_command dcs

unfoldable pub to_kube_device_profile : GoText → EdgeXDeviceProfile → DeviceProfile
unfolding to_kube_device_resources to_kube_device_command
to_kube_device_profile go dp = record {
  metadata = record {
    name = to_kube_name go dp.name;
    namespace = "default";
    labels = (edgex_object_name, dp.name) ∷ [];
    finalizers = [];
    deletion_timestamp = none;
    resource_version = "";
  };
  spec = record {
    node_pool = "";
    description = dp.description;
    manufacturer = dp.manufacturer;
    model = dp.model;
    labels = dp.labels;
    device_resources = to_kube_device_resources go dp.device_resources;
    device_commands = to_kube_device_command dp.device_commands;
  };
  status = record { edge_id = dp.id; synced = true };
}

unfoldable pub to_edgex_device_profile : DeviceProfile → EdgeXDeviceProfile
unfolding to_edgex_device_resource_slice to_edgex_device_command
to_edgex_device_profile dp = record {
  id = "";
  name = get_edgex_name dp.metadata;
  description = dp.spec.description;
  manufacturer = dp.spec.manufacturer;
  model = dp.spec.model;
  labels = dp.spec.labels;
  device_resources = to_edgex_device_resource_slice dp.spec.device_resources;
  device_commands = to_edgex_device_command dp.spec.device_commands;
}

-- `makeEdgeXDeviceProfilesRequest`
unfoldable pub make_edgex_device_profiles_request :
    List DeviceProfile → List (Request EdgeXDeviceProfile)
make_edgex_device_profiles_request [] = []
make_edgex_device_profiles_request (dp ∷ dps) =
    record { api_version = api_version_v2; payload = to_edgex_device_profile dp }
    ∷ make_edgex_device_profiles_request dps
