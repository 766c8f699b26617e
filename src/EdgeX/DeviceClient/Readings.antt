-- ===== src/EdgeX/DeviceClient/Readings.antt =====
-- The pure parts of pkg/clients/edgex-foundry/device_client.go: values in events, commands by name,
-- and the meaning of status codes.
use yurt_device_controller.Prelude.{
  ℕ, String, ◌<>◌, ◌&&◌, Option, none, some, List, [], ◌∷◌, ◌==◌, if◌then◌else◌, same_number,
  is_empty,
}
use yurt_device_controller.Prelude.Io.{Error, new_error}
use yurt_device_controller.EdgeX.Dto.{Any, nil}
use yurt_device_controller.EdgeX.Http.{Codec, CoreCommand, Reading}

unfoldable pub object_text : Codec → Any → String
object_text codec nil = ""
object_text codec o = codec.encode_object o

-- The value of one reading: its text, else the mark of binary data, else its object.
unfoldable pub value_of_reading : Codec → Reading → String
unfolding object_text
value_of_reading codec r =
    if r.simple_value == ""
    then (if is_empty r.binary_value
        then object_text codec r.object_value
        else r.media_type <> ":blob value")
    else r.simple_value

-- `getPropertyValueFromEvent`: the value of the first reading of that name.
unfoldable pub get_property_value_from_event : Codec → String → List Reading → String
unfolding value_of_reading
get_property_value_from_event codec name [] = ""
get_property_value_from_event codec name (r ∷ rs) =
    if name == r.resource_name
    then value_of_reading codec r
    else get_property_value_from_event codec name rs

-- The URL of the first command of that name that can be read, else the empty text.
unfoldable pub find_get_url : String → List CoreCommand → String
find_get_url name [] = ""
find_get_url name (c ∷ cs) =
    if c.name == name && c.can_get then c.url <> c.path else find_get_url name cs

unfoldable pub find_put_command : String → List CoreCommand → Option CoreCommand
find_put_command name [] = none
find_put_command name (c ∷ cs) =
    if name == c.name && c.can_set then some c else find_put_command name cs

-- The error that `getPropertyState` makes of a status code.
unfoldable pub status_error : ℕ → Option Error
status_error code =
    if same_number code 400
    then some (new_error "request is in an invalid state")
    else if same_number code 404
    then some (new_error "the requested resource does not exist")
    else if same_number code 423
    then some (new_error "the device is locked (AdminState) or down (OperatingState)")
    else if same_number code 500
    then some (new_error "an unexpected error occurred on the server")
    else none
