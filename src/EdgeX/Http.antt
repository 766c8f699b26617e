-- ===== src/EdgeX/Http.antt =====
-- What the clients of the edge platform take from outside the repository: the HTTP client (resty)
-- and the JSON codec, both parameters, with the messages that pass through them.
use yurt_device_controller.Prelude.{ℕ, String, Bool, Option, none, List, [], ◌∷◌, ◌≡◌, ◌≢◌}
use yurt_device_controller.Prelude.Dict.{Dict}
use yurt_device_controller.Prelude.Io.{Result, value, Call}
use yurt_device_controller.EdgeX.Dto.{
  Any, EdgeXDevice, EdgeXUpdateDevice, EdgeXDeviceService, EdgeXDeviceProfile, Request,
}

pub record Response : Type 0 where
  pub status_code : ℕ
  pub body : String

pub data Method : Type 0 where
  get_method post_method patch_method put_method delete_method : Method

-- One request with its URL and its body; an error means that no response came.
pub record Http (W : Type 0) : Type 0 where
  pub send : Method → String → String → Call W Response

-- `common.BaseWithIdResponse`
pub record IdResponse : Type 0 where
  pub status_code : ℕ
  pub id : String

-- `dtos.CoreCommand`, with the resource names of its parameters
pub record CoreCommand : Type 0 where
  pub name : String
  pub can_get : Bool
  pub can_set : Bool
  pub url : String
  pub path : String
  pub parameters : List String

-- `dtos.BaseReading`; an object value that is absent is `nil`
pub record Reading : Type 0 where
  pub resource_name : String
  pub simple_value : String
  pub binary_value : List ℕ
  pub media_type : String
  pub object_value : Any

-- `json.Marshal` and `json.Unmarshal`, at the types that the clients use. A list of pointers may
-- hold nil. The text of an object value that cannot be encoded is empty.
pub record Codec : Type 0 where
  pub encode_devices : List (Request EdgeXDevice) → Result String
  pub encode_updates : List (Request EdgeXUpdateDevice) → Result String
  pub encode_services : List (Request EdgeXDeviceService) → Result String
  pub encode_service : EdgeXDeviceService → Result String
  pub encode_profiles : List (Request EdgeXDeviceProfile) → Result String
  pub encode_values : Dict String → String
  pub encode_object : Any → String
  pub decode_ids : String → Result (List (Option IdResponse))
  pub decode_device : String → Result EdgeXDevice
  pub decode_devices : String → Result (List EdgeXDevice)
  pub decode_service : String → Result EdgeXDeviceService
  pub decode_services : String → Result (List EdgeXDeviceService)
  pub decode_profile : String → Result EdgeXDeviceProfile
  pub decode_profiles : String → Result (List EdgeXDeviceProfile)
  pub decode_event : String → Result (List Reading)
  pub decode_commands : String → Result (List CoreCommand)

-- In no answer that the service gives to a POST, the list of entries is one nil pointer.
abbrev pub HasEntries : {W : Type 0} → Http W → Codec → Type 0
HasEntries {W} http codec =
    (url body : String) (w : W) (resp : Response)
    → (http.send post_method url body w).0 ≡ value resp
    → codec.decode_ids resp.body ≢ value (none ∷ [])
