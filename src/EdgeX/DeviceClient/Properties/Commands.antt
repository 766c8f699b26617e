-- ===== src/EdgeX/DeviceClient/Properties/Commands.antt =====
-- Setting and reading a property through a command service that stores what is written.
use yurt_device_controller.Prelude.{
  ◌∙◌, ◌≡◌, ◌⊎◌, inl, inr, arith, eq_iff, false, String, ◌<>◌, none, some, List, [], ◌∷◌, ◌==◌,
  if◌then◌else◌, contains_text,
}
use yurt_device_controller.Prelude.Dict.{lookup}
use yurt_device_controller.Prelude.Io.{value, ok}
use yurt_device_controller.Api.{Device, DesiredPropertyState, ActualPropertyState}
use yurt_device_controller.EdgeX.Names.{get_edgex_name}
use yurt_device_controller.EdgeX.Http.{CoreCommand, Reading, get_method, put_method, Response}
use yurt_device_controller.EdgeX.DeviceClient.Client.{EdgexDeviceClient, command_response_path}
use yurt_device_controller.EdgeX.DeviceClient.Readings.{
  get_property_value_from_event, find_get_url, find_put_command, status_error, value_of_reading,
}
use yurt_device_controller.EdgeX.DeviceClient.Properties.{
  get_command_response_by_name, get_property_state, update_property_state, known_url, read_url,
  read_value, query_state, state_of, get_property_put, parameter_name, put_target, desired_property,
}

abbrev pub answer : String → Response
answer body = record { status_code = 200; body = body }

-- The command service has the command `c`, which reads and sets the one resource of its
-- parameter list, and whose value is `holds w`.
pub record Serves {W : Type 0} (efc : EdgexDeviceClient W) (device_name : String) (c : CoreCommand)
    (resource : String) (holds : W → String) : Type 0 where
  pub commands :
      (w : W)
      → (body : String) × (w' : W) × (cs : List CoreCommand) × (efc.http.send get_method
            ("http://"
              <> (efc.core_command_addr <> (command_response_path <> ("/name/" <> device_name))))
            ""
            w
          ≡ (value (answer body), w'))
        × (efc.codec.decode_commands body ≡ value cs)
        × (find_put_command c.name cs ≡ some c)
        × (find_get_url c.name cs ≡ c.url <> c.path)
        × (holds w' ≡ holds w)
  pub reads :
      (w : W)
      → (body : String) × (w' : W) × (reading : Reading) × (efc.http.send get_method
            (c.url <> c.path)
            ""
            w
          ≡ (value (answer body), w'))
        × (efc.codec.decode_event body ≡ value (reading ∷ []))
        × (reading.resource_name ≡ resource)
        × (value_of_reading efc.codec reading ≡ holds w)
        × (holds w' ≡ holds w)
  pub writes :
      (v : String) (w : W)
      → (body : String) × (w' : W) × (efc.http.send put_method
            (c.url <> c.path)
            (efc.codec.encode_values ((resource, v) ∷ []))
            w
          ≡ (value (answer body), w'))
        × (contains_text body "execWriteCmd" ≡ false)
        × (holds w' ≡ v)
  pub one_parameter : c.parameters ≡ resource ∷ []
  pub has_url : ((c.url <> c.path) == "") ≡ false

-- The device desires a value of the property that the command sets, and remembers no other URL.
pub record Desires {W : Type 0} (efc : EdgexDeviceClient W) (d : Device) (c : CoreCommand)
    (p : DesiredPropertyState) : Type 0 where
  pub named : p.name ≡ c.name
  pub stands : lookup c.name d.spec.device_properties ≡ some p
  pub no_put_url : p.put_url ≡ ""
  pub remembers : (known_url efc c.name d ≡ "") ⊎ (known_url efc c.name d ≡ c.url <> c.path)

module _ {W : Type 0} (efc : EdgexDeviceClient W) (c : CoreCommand) (resource : String)
    (holds : W → String) (d : Device)
    (serves : Serves efc (get_edgex_name d.metadata) c resource holds) where
  -- What a read of the property gives.
  abbrev pub seen : W → ActualPropertyState
  seen w = record {
    name = c.name;
    get_url = c.url <> c.path;
    actual_value = if c.name == resource then holds w else "";
  }

  read_value-seen :
      (w : W)
      → (w' : W) × (read_value efc c.name (c.url <> c.path) w ≡ (ok (seen w), w'))
        × (holds w' ≡ holds w)
  unfolding read_value read_url get_property_value_from_event status_error
  read_value-seen w =
      let (body, w', reading, sent, decoded, named, shown, kept) = serves.reads w in
      (w', ground (arith), kept)

  commands-lem :
      (w : W)
      → (w' : W) × (cs : List CoreCommand) × (get_command_response_by_name efc
            (get_edgex_name d.metadata)
            w
          ≡ (ok cs, w'))
        × (find_put_command c.name cs ≡ some c)
        × (find_get_url c.name cs ≡ c.url <> c.path)
        × (holds w' ≡ holds w)
  unfolding get_command_response_by_name
  commands-lem w =
      let (body, w', cs, sent, decoded, puts, gets, kept) = serves.commands w in
      (w', cs, ground arith, puts, gets, kept)

  -- A read gives the value behind the URL of the command, remembered or asked for.
  pub get_property_state-seen :
      (p : DesiredPropertyState) (w : W)
      → Desires efc d c p
      → (w' : W) × (get_property_state efc c.name d w ≡ (ok (some (seen w), none), w'))
        × (holds w' ≡ holds w)
  unfolding get_property_state query_state state_of
  get_property_state-seen p w wants = elim wants.remembers [
    | inl unknown ↦
        let (w₁, cs, asked, puts, gets, kept) = commands-lem w in
        let (w₂, read, kept') = read_value-seen w₁ in
        (w₂, ground (arith, serves.has_url, eq_iff (known_url efc c.name d) ""), kept' ∙ kept)
    | inr known ↦
        let (w₂, read, kept') = read_value-seen w in (w₂, ground (arith, serves.has_url), kept')
  ]

  pub update_property_state-writes :
      (p : DesiredPropertyState) (w : W)
      → Desires efc d c p
      → (w' : W) × (update_property_state efc c.name d w ≡ (ok tt, w'))
        × (holds w' ≡ p.desired_value)
  unfolding update_property_state put_target get_property_put parameter_name desired_property
  update_property_state-writes p w wants =
      let (w₁, cs, asked, puts, gets, kept) = commands-lem w in
      let (body, w₂, sent, fine, stored) = serves.writes p.desired_value w₁ in
      (
        w₂,
        ground (
          arith,
          wants.named,
          wants.stands,
          wants.no_put_url,
          serves.one_parameter,
          eq_iff p.put_url "",
        ),
        stored,
      )

  -- Over a command service that stores what is written, for a command with one parameter and a
  -- device that desires a value of its property, without a URL to set it: setting the property
  -- and then reading it succeeds, and what is read is the desired value where the resource has
  -- the name of the property, and the empty text where it has another name.
  pub set_then_get :
      (p : DesiredPropertyState) (w : W)
      → Desires efc d c p
      → (w₁ : W) × (w₂ : W) × (update_property_state efc c.name d w ≡ (ok tt, w₁))
        × (get_property_state efc c.name d w₁ ≡ (
          ok (
            some (record {
              name = c.name;
              get_url = c.url <> c.path;
              actual_value = if c.name == resource then p.desired_value else "";
            }),
            none,
          ),
          w₂,
        ))
  set_then_get p w wants =
      let (w₁, set, stored) = update_property_state-writes p w wants in
      let (w₂, read, kept) = get_property_state-seen p w₁ wants in
      (w₁, w₂, set, ground (arith, stored, read))
