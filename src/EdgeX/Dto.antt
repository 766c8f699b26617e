-- ===== src/EdgeX/Dto.antt =====
-- The data of the edge platform's API (go-mod-core-contracts), with the fields that util.go fills
-- in or reads.
use yurt_device_controller.Prelude.{ℕ, String, Bool, Option, List}
use yurt_device_controller.Prelude.Dict.{Dict}

-- A value of type `interface{}`, by the dynamic types that util.go tests for. Numbers are their
-- 64-bit patterns, and a `stringer` carries what its `String()` returns.
pub data Any : Type 0 where
  nil other : Any
  text stringer : String → Any
  int float64 : ℕ → Any

-- `dtos.AutoEvent`
pub record AutoEvent : Type 0 where
  pub interval : String
  pub on_change : Bool
  pub source_name : String

pub record EdgeXDevice : Type 0 where
  pub id : String
  pub name : String
  pub description : String
  pub admin_state : String
  pub operating_state : String
  pub protocols : Dict (Dict String)
  pub last_connected : ℕ
  pub last_reported : ℕ
  pub labels : List String
  pub location : Any
  pub service_name : String
  pub profile_name : String
  pub auto_events : List AutoEvent
  -- the times of `DBTimestamp`
  pub created : ℕ
  pub modified : ℕ

-- The optional fields are pointers: `none` leaves the field of the edge device as it is.
pub record EdgeXUpdateDevice : Type 0 where
  pub id : Option String
  pub name : Option String
  pub description : Option String
  pub admin_state : Option String
  pub operating_state : Option String
  pub protocols : Dict (Dict String)
  pub last_connected : Option ℕ
  pub last_reported : Option ℕ
  pub labels : List String
  pub location : Any
  pub service_name : Option String
  pub profile_name : Option String
  pub notify : Option Bool

pub record EdgeXDeviceService : Type 0 where
  pub id : String
  pub name : String
  pub description : String
  pub last_connected : ℕ
  pub last_reported : ℕ
  pub labels : List String
  pub admin_state : String
  pub base_address : String

pub record EdgeXResourceProperties : Type 0 where
  pub read_write : String
  pub minimum : String
  pub maximum : String
  pub default_value : String
  pub mask : String
  pub shift : String
  pub scale : String
  pub offset : String
  pub base : String
  pub assertion : String
  pub media_type : String
  pub units : String
  pub value_type : String

pub record EdgeXDeviceResource : Type 0 where
  pub description : String
  pub name : String
  pub tag : String
  pub is_hidden : Bool
  pub properties : EdgeXResourceProperties
  pub attributes : Dict Any

pub record EdgeXResourceOperation : Type 0 where
  pub device_resource : String
  pub mappings : Dict String
  pub default_value : String

pub record EdgeXDeviceCommand : Type 0 where
  pub name : String
  pub is_hidden : Bool
  pub read_write : String
  pub resource_operations : List EdgeXResourceOperation

pub record EdgeXDeviceProfile : Type 0 where
  pub id : String
  pub name : String
  pub description : String
  pub manufacturer : String
  pub model : String
  pub labels : List String
  pub device_resources : List EdgeXDeviceResource
  pub device_commands : List EdgeXDeviceCommand

-- A request with its `apiVersion`.
pub record Request (A : Type 0) : Type 0 where
  pub api_version : String
  pub payload : A
