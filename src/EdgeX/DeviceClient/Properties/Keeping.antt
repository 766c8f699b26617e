-- ===== src/EdgeX/DeviceClient/Properties/Keeping.antt =====
-- What reading and setting a property leave as it is.
use yurt_device_controller.Prelude.{◌≡◌, ◌≢◌, eq_iff, arith, String, ◌<>◌, [], ◌∷◌}
use yurt_device_controller.Api.{Device, DesiredPropertyState}
use yurt_device_controller.EdgeX.Names.{get_edgex_name}
use yurt_device_controller.EdgeX.Http.{CoreCommand, get_method, put_method}
use yurt_device_controller.EdgeX.DeviceClient.Client.{EdgexDeviceClient, command_response_path}
use yurt_device_controller.EdgeX.DeviceClient.Properties.{
  get_command_response_by_name, get_property_state, update_property_state, read_url, read_value,
  query_state, state_of, get_property_put, parameter_name, put_target, desired_property,
}
use yurt_device_controller.EdgeX.DeviceClient.Properties.Commands.{Serves, Desires}

-- A GET request changes no value, and a PUT request to the command only its own.
pub record IsApart {W : Type 0} (efc : EdgexDeviceClient W) (c : CoreCommand) (resource : String)
    (holds : String → W → String) : Type 0 where
  pub gets :
      (n url body : String) (w : W) → holds n (efc.http.send get_method url body w).1 ≡ holds n w
  pub puts :
      (n v : String) (w : W)
      → n ≢ c.name
      → holds n
          (efc.http.send put_method
            (c.url <> c.path)
            (efc.codec.encode_values ((resource, v) ∷ []))
            w).1
        ≡ holds n w

module _ {W : Type 0} (efc : EdgexDeviceClient W) (c : CoreCommand) (resource : String)
    (holds : String → W → String) (apart : IsApart efc c resource holds) where
  commands-keep :
      (n device_name : String) (w : W)
      → holds n (get_command_response_by_name efc device_name w).1 ≡ holds n w
  unfolding get_command_response_by_name
  commands-keep n device_name w = grind (arith, apart.gets)

  read_value-keep :
      (n name url : String) (w : W) → holds n (read_value efc name url w).1 ≡ holds n w
  unfolding read_value read_url
  read_value-keep n name url w = grind (arith, apart.gets)

  pub get_property_state-keep :
      (n name : String) (d : Device) (w : W)
      → holds n (get_property_state efc name d w).1 ≡ holds n w
  unfolding get_property_state query_state state_of
  get_property_state-keep n name d w =
      grind (arith, commands-keep n (get_edgex_name d.metadata) w, read_value-keep)

  pub update_property_state-keep :
      (n : String) (d : Device) (p : DesiredPropertyState) (w : W)
      → Serves efc (get_edgex_name d.metadata) c resource (holds c.name)
      → Desires efc d c p
      → n ≢ c.name
      → holds n (update_property_state efc c.name d w).1 ≡ holds n w
  unfolding update_property_state put_target get_property_put parameter_name desired_property
      get_command_response_by_name
  update_property_state-keep n d p w serves wants other =
      let (body, w', cs, sent, decoded, puts, gets, kept) = serves.commands w in
      ground (
        arith,
        sent,
        decoded,
        puts,
        wants.named,
        wants.stands,
        wants.no_put_url,
        eq_iff p.put_url "",
        serves.one_parameter,
        apart.puts n p.desired_value w' other,
        apart.gets n
            ("http://"
              <> (efc.core_command_addr
                  <> (command_response_path <> ("/name/" <> get_edgex_name d.metadata))))
            "" w,
      )
