-- ===== src/EdgeX/DeviceClient/Properties.antt =====
-- The properties of one device: `GetPropertyState`, `UpdatePropertyState` and `ListPropertiesState`
-- of pkg/clients/edgex-foundry/device_client.go.
pub mod Commands
pub mod Keeping
use yurt_device_controller.Prelude.{
  ◌≡◌, refl, arith, eq_iff, String, ◌<>◌, Option, none, some, List, [], ◌∷◌, ◌==◌, if◌then◌else◌,
  contains_text, same_number,
}
use yurt_device_controller.Prelude.Dict.{Dict, lookup, insert}
use yurt_device_controller.Prelude.Io.{
  Io, Error, new_error, Result, value, error, Outcome, ok, fail, panic, pure, raise, attempt, call,
  of_result, ◌>>=◌,
}
use yurt_device_controller.Api.{Device, DesiredPropertyState, ActualPropertyState}
use yurt_device_controller.Clients.Errors.{not_found_error}
use yurt_device_controller.EdgeX.Names.{get_edgex_name}
use yurt_device_controller.EdgeX.Http.{Response, CoreCommand, Reading, get_method, put_method}
use yurt_device_controller.EdgeX.DeviceClient.Client.{
  EdgexDeviceClient, command_response_path, settle,
}
use yurt_device_controller.EdgeX.DeviceClient.Readings.{
  get_property_value_from_event, find_get_url, find_put_command, status_error,
}

module _ {W : Type 0} (efc : EdgexDeviceClient W) where
  unfoldable pub get_command_response_by_name : String → Io W (List CoreCommand)
  get_command_response_by_name name = do
    resp ← call (
        efc.http.send get_method
          ("http://" <> (efc.core_command_addr <> (command_response_path <> ("/name/" <> name))))
          "")
    if same_number resp.status_code 404
        then raise (new_error "Item not found")
        else settle (of_result (efc.codec.decode_commands resp.body))

  -- `getPropertyState`, which has the response beside an error only for a log.
  read_url : String → Io W Response
  read_url url = do
    resp ← call (efc.http.send get_method url "")
    elim (status_error resp.status_code) [ some e ↦ raise e | none ↦ pure resp ]

  -- Step 2 of `GetPropertyState`: every error comes with a nil state.
  read_value : String → String → Io W ActualPropertyState
  unfolding read_url
  read_value name url = do
    resp ← read_url url
    readings ← settle (of_result (efc.codec.decode_event resp.body))
    pure (record {
      name = name;
      get_url = url;
      actual_value = get_property_value_from_event efc.codec name readings;
    })

  abbrev State : Type 0
  State = Option ActualPropertyState × Option Error

  state_of : Result ActualPropertyState → State
  state_of (value a) = (some a, none)
  state_of (error e) = (none, some e)

  -- The zero value that comes with an error of the command service.
  abbrev no_state : ActualPropertyState
  no_state = record { name = ""; get_url = ""; actual_value = "" }

  -- Step 1 where the URL has to be asked for.
  query_state : String → Result (List CoreCommand) → Io W State
  unfolding read_value state_of
  query_state name (error e) = pure (some no_state, some e)
  query_state name (value cs) =
      let url = find_get_url name cs in
      if url == ""
      then pure (none, some not_found_error)
      else attempt (read_value name url) >>= λ r. pure (state_of r)

  -- The URL that the status of the device remembers, or the empty text.
  unfoldable pub known_url : String → Device → String
  known_url name d = elim (d.status.device_properties) [
    | none ↦ ""
    | some m ↦ elim (lookup name m) [ none ↦ "" | some a ↦ a.get_url ]
  ]

  unfoldable pub get_property_state : String → Device → Io W State
  unfolding query_state
  get_property_state name d =
      let url = known_url name d in
      if url == ""
      then attempt (get_command_response_by_name (get_edgex_name d.metadata)) >>= query_state name
      else attempt (read_value name url) >>= λ r. pure (state_of r)

  -- `GetCommandResponseByName` and the search for the command that sets the property.
  get_property_put : String → String → Io W CoreCommand
  get_property_put device_name cmd_name = do
    cs ← get_command_response_by_name device_name
    elim (find_put_command cmd_name cs) [
      | some c ↦ pure c
      | none ↦ raise (new_error "corresponding command is not found")
    ]

  -- The name of the parameter in the body: that of the command's only parameter, if it has one.
  parameter_name : String → List String → String
  parameter_name name (p ∷ []) = p
  parameter_name name _ = name

  -- The URL to write to and the parameter to set.
  put_target : DesiredPropertyState → Device → Io W (String × String)
  unfolding get_property_put parameter_name
  put_target dps d =
      if dps.put_url == ""
      then (get_property_put (get_edgex_name d.metadata) dps.name >>= λ c.
          pure (c.url <> c.path, parameter_name dps.name c.parameters))
      else pure (dps.put_url, dps.name)

  put_failure : DesiredPropertyState → String → Error
  put_failure dps body =
      new_error ("failed to set property: " <> (dps.name <> (", get response: " <> body)))

  -- `d.Spec.DeviceProperties[name]`, the zero value where it is missing
  desired_property : String → Device → DesiredPropertyState
  desired_property name d = elim (lookup name d.spec.device_properties) [
    | some p ↦ p
    | none ↦ record { name = ""; put_url = ""; desired_value = "" }
  ]

  unfoldable pub update_property_state : String → Device → Io W (Unit {0})
  unfolding put_target put_failure desired_property
  update_property_state name d = do
    let dps = desired_property name d
    target ← put_target dps d
    resp ← call (
        efc.http.send put_method target.0
          (efc.codec.encode_values ((target.1, dps.desired_value) ∷ [])))
    if same_number resp.status_code 200
        then (if contains_text resp.body "execWriteCmd"
            then raise (put_failure dps resp.body)
            else pure tt)
        else raise (put_failure dps resp.body)

  -- The loop of `ListPropertiesState`. `settled` is what the reply to one read makes of a state.
  reading_name : CoreCommand → String
  unfolding parameter_name
  reading_name c = parameter_name c.name c.parameters

  answered : CoreCommand → ActualPropertyState → Result (List Reading) → ActualPropertyState
  unfolding reading_name
  answered c aps (error e) = aps
  answered c aps (value readings) = record aps {
    actual_value = get_property_value_from_event efc.codec (reading_name c) readings;
  }

  -- The entry of a command before its value is read.
  listed : CoreCommand → Dict ActualPropertyState → ActualPropertyState
  listed c apsm = elim (lookup c.name apsm) [
    | some aps ↦ record aps { get_url = c.url <> c.path }
    | none ↦ record { name = c.name; get_url = c.url <> c.path; actual_value = "" }
  ]

  -- The readings behind a URL, or one of the errors that are only logged.
  read_readings : Result Response → Result (List Reading)
  read_readings (error e) = error e
  read_readings (value resp) = elim (status_error resp.status_code) [
    | some e ↦ error e
    | none ↦ efc.codec.decode_event resp.body
  ]

  list_commands : List CoreCommand → Dict ActualPropertyState → W → Dict ActualPropertyState × W
  unfolding answered listed read_readings
  list_commands [] apsm w = (apsm, w)
  list_commands (c ∷ cs) apsm w =
      let (reply, w') = efc.http.send get_method (c.url <> c.path) "" w in
      let next = insert c.name (answered c (listed c apsm) (read_readings reply)) apsm in
      list_commands cs (if c.can_get then next else apsm) (if c.can_get then w' else w)

  after_commands :
      Outcome (List CoreCommand) × W
      → (Dict DesiredPropertyState × Dict ActualPropertyState × Option Error) × W
  unfolding list_commands
  after_commands (ok cs, w) = let (apsm, w') = list_commands cs [] w in (([], apsm, none), w')
  after_commands (fail e, w) = (([], [], some e), w)
  after_commands (panic, w) = (([], [], none), w)

  unfoldable pub list_properties_state :
      Device → W → (Dict DesiredPropertyState × Dict ActualPropertyState × Option Error) × W
  unfolding after_commands
  list_properties_state d w =
      after_commands (get_command_response_by_name (get_edgex_name d.metadata) w)

  -- Where no URL is remembered and no command reads the property, the answer is a nil state with
  -- the error "Item not found".
  pub missing_command :
      (name : String) (d : Device) (w w' : W) (cs : List CoreCommand)
      → known_url name d ≡ ""
      → get_command_response_by_name (get_edgex_name d.metadata) w ≡ (ok cs, w')
      → find_get_url name cs ≡ ""
      → get_property_state name d w ≡ (ok (none, some not_found_error), w')
  unfolding get_property_state
  missing_command name d w w' cs unknown commands unreadable =
      ground (arith, eq_iff (known_url name d) "", eq_iff (find_get_url name cs) "")

  -- Where the commands cannot be read, the answer is two empty maps with the error.
  pub failed_list :
      (d : Device) (w w' : W) (e : Error)
      → get_command_response_by_name (get_edgex_name d.metadata) w ≡ (fail e, w')
      → list_properties_state d w ≡ (([], [], some e), w')
  unfolding list_properties_state
  failed_list d w w' e failed = rw failed refl
