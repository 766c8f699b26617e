-- ===== src/Tests/Wire.antt =====
-- A concrete HTTP service and codec, and a client that uses them.
use yurt_device_controller.Prelude.{ℕ, false, [], ◌∷◌, some}
use yurt_device_controller.Prelude.Io.{new_error, value, error}
use yurt_device_controller.EdgeX.Names.{GoText}
use yurt_device_controller.EdgeX.Dto.{text, EdgeXDevice}
use yurt_device_controller.EdgeX.Http.{Http, Codec}
use yurt_device_controller.EdgeX.DeviceClient.Client.{EdgexDeviceClient}
use yurt_device_controller.Tests.Samples.{Platform}

abbrev pub go : GoText
go = record { wide_lower = λ c. c; format_int = λ n. "0"; format_float = λ n. "0" }

abbrev pub edge_device : EdgeXDevice
edge_device = record {
  id = "e1";
  name = "Thermo_1";
  description = "hall";
  admin_state = "LOCKED";
  operating_state = "UP";
  protocols = ("modbus", ("Port", "502") ∷ []) ∷ [];
  last_connected = 3;
  last_reported = 4;
  labels = [];
  location = text "roof";
  service_name = "modbus";
  profile_name = "thermo";
  auto_events = record { interval = "30s"; on_change = false; source_name = "Float32" } ∷ [];
  created = 1661829206505;
  modified = 1661829206505;
}

-- An edge platform that answers every request with one status, and whose answers to a creation
-- name one new object.
abbrev pub http : ℕ → Http Platform
http code = record { send = λ m url body p. (value (record { status_code = code; body = "" }), p) }

abbrev pub codec : Codec
codec = record {
  encode_devices = λ x. value "";
  encode_updates = λ x. value "";
  encode_services = λ x. value "";
  encode_service = λ x. value "";
  encode_profiles = λ x. value "";
  encode_values = λ x. "";
  encode_object = λ x. "";
  decode_ids = λ x. value (some (record { status_code = 201; id = "e9" }) ∷ []);
  decode_device = λ x. value edge_device;
  decode_devices = λ x. value (edge_device ∷ []);
  decode_service = λ x. error (new_error "");
  decode_services = λ x. value [];
  decode_profile = λ x. error (new_error "");
  decode_profiles = λ x. value [];
  decode_event = λ x. value [];
  decode_commands = λ x. value [];
}

abbrev pub client : ℕ → EdgexDeviceClient Platform
client code = record {
  http = http code;
  codec = codec;
  go = go;
  core_meta_addr = "meta:59881";
  core_command_addr = "command:59882";
}
