-- ===== src/Api/Devices.antt =====
-- apis/device.openyurt.io/v1alpha1/device_types.go
use yurt_device_controller.Prelude.{String, Bool, Option, List}
use yurt_device_controller.Prelude.Dict.{Dict}
use yurt_device_controller.Api.Meta.{ObjectMeta, Conditions, Millis}

abbrev pub device_finalizer : String
device_finalizer = "v1alpha1.device.finalizer"

abbrev pub device_synced_condition : String
device_synced_condition = "DeviceSynced"

abbrev pub device_managing_condition : String
device_managing_condition = "DeviceManaging"

-- `type AdminState string` and `type OperatingState string`: any text may occur.
abbrev pub AdminState : Type 0
AdminState = String

abbrev pub locked : AdminState
locked = "LOCKED"

abbrev pub unlocked : AdminState
unlocked = "UNLOCKED"

abbrev pub OperatingState : Type 0
OperatingState = String

abbrev pub unknown_state : OperatingState
unknown_state = "UNKNOWN"

abbrev pub up : OperatingState
up = "UP"

abbrev pub down : OperatingState
down = "DOWN"

abbrev pub ProtocolProperties : Type 0
ProtocolProperties = Dict String

pub record DesiredPropertyState : Type 0 where
  pub name : String
  pub put_url : String
  pub desired_value : String

pub record ActualPropertyState : Type 0 where
  pub name : String
  pub get_url : String
  pub actual_value : String

pub record DeviceSpec : Type 0 where
  pub description : String
  pub admin_state : AdminState
  pub operating_state : OperatingState
  pub protocols : Dict ProtocolProperties
  pub labels : List String
  pub location : String
  pub service : String
  pub profile : String
  pub notify : Bool
  pub managed : Bool
  pub node_pool : String
  pub device_properties : Dict DesiredPropertyState

pub record DeviceStatus : Type 0 where
  pub last_connected : Millis
  pub last_reported : Millis
  pub synced : Bool
  -- `none` is the nil map, on which a write panics
  pub device_properties : Option (Dict ActualPropertyState)
  pub edge_id : String
  pub admin_state : AdminState
  pub operating_state : OperatingState
  pub conditions : Conditions

pub record Device : Type 0 where
  pub metadata : ObjectMeta
  pub spec : DeviceSpec
  pub status : DeviceStatus

-- `SetConditions`
abbrev pub set_conditions : Device → Conditions → Device
set_conditions d cs = record d { status = record (d.status) { conditions = cs } }
