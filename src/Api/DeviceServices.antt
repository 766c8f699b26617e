-- ===== src/Api/DeviceServices.antt =====
-- apis/device.openyurt.io/v1alpha1/deviceservice_types.go
use yurt_device_controller.Prelude.{String, Bool, List}
use yurt_device_controller.Api.Meta.{ObjectMeta, Conditions, Millis}
use yurt_device_controller.Api.Devices.{AdminState}

abbrev pub device_service_finalizer : String
device_service_finalizer = "v1alpha1.deviceService.finalizer"

abbrev pub device_service_synced_condition : String
device_service_synced_condition = "DeviceServiceSynced"

abbrev pub device_service_managing_condition : String
device_service_managing_condition = "DeviceServiceManaging"

pub record DeviceServiceSpec : Type 0 where
  pub base_address : String
  pub description : String
  pub labels : List String
  pub admin_state : AdminState
  pub managed : Bool
  pub node_pool : String

pub record DeviceServiceStatus : Type 0 where
  pub synced : Bool
  pub edge_id : String
  pub last_connected : Millis
  pub last_reported : Millis
  pub admin_state : AdminState
  pub conditions : Conditions

pub record DeviceService : Type 0 where
  pub metadata : ObjectMeta
  pub spec : DeviceServiceSpec
  pub status : DeviceServiceStatus

-- `SetConditions`
abbrev pub set_service_conditions : DeviceService → Conditions → DeviceService
set_service_conditions ds cs = record ds { status = record (ds.status) { conditions = cs } }
