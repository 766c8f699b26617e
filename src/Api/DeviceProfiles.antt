-- ===== src/Api/DeviceProfiles.antt =====
-- apis/device.openyurt.io/v1alpha1/deviceprofile_types.go and edgexobject.go
use yurt_device_controller.Prelude.{String, Bool, List}
use yurt_device_controller.Prelude.Dict.{Dict}
use yurt_device_controller.Api.Meta.{ObjectMeta}
use yurt_device_controller.Api.Devices.{Device}

abbrev pub device_profile_finalizer : String
device_profile_finalizer = "v1alpha1.deviceProfile.finalizer"

pub record ResourceProperties : Type 0 where
  pub read_write : String
  pub minimum : String
  pub maximum : String
  pub default_value : String
  pub mask : String
  pub shift : String
  pub scale : String
  pub offset : String
  pub base : String
  pub assertion : String
  pub media_type : String
  pub units : String
  pub value_type : String

pub record DeviceResource : Type 0 where
  pub description : String
  pub name : String
  pub tag : String
  pub is_hidden : Bool
  pub properties : ResourceProperties
  pub attributes : Dict String

pub record ResourceOperation : Type 0 where
  pub device_resource : String
  pub mappings : Dict String
  pub default_value : String

pub record DeviceCommand : Type 0 where
  pub name : String
  pub is_hidden : Bool
  pub read_write : String
  pub resource_operations : List ResourceOperation

pub record DeviceProfileSpec : Type 0 where
  pub node_pool : String
  pub description : String
  pub manufacturer : String
  pub model : String
  pub labels : List String
  pub device_resources : List DeviceResource
  pub device_commands : List DeviceCommand

pub record DeviceProfileStatus : Type 0 where
  pub edge_id : String
  pub synced : Bool

pub record DeviceProfile : Type 0 where
  pub metadata : ObjectMeta
  pub spec : DeviceProfileSpec
  pub status : DeviceProfileStatus

-- The two objects that implement the interface `EdgeXObject`, and its one method.
pub data EdgeXObject : Type 0 where
  device : Device → EdgeXObject
  device_profile : DeviceProfile → EdgeXObject

unfoldable pub is_added_to_edgex : EdgeXObject → Bool
is_added_to_edgex (device d) = d.status.synced
is_added_to_edgex (device_profile dp) = dp.status.synced
