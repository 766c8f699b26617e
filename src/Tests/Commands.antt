-- ===== src/Tests/Commands.antt =====
-- A command service with one command, whose world is the value that it stores.
use yurt_device_controller.Prelude.{
  ◌≡◌, refl, arith, eq_iff, inl, String, true, none, some, [], ◌∷◌,
}
use yurt_device_controller.Prelude.Io.{ok, fail, value, new_error, Outcome}
use yurt_device_controller.Api.{Device}
use yurt_device_controller.EdgeX.Dto.{nil}
use yurt_device_controller.EdgeX.Names.{get_edgex_name}
use yurt_device_controller.EdgeX.Http.{Http, Codec, CoreCommand, put_method}
use yurt_device_controller.EdgeX.DeviceClient.Client.{EdgexDeviceClient}
use yurt_device_controller.EdgeX.DeviceClient.Readings.{
  value_of_reading, object_text, find_put_command, find_get_url,
}
use yurt_device_controller.EdgeX.DeviceClient.Properties.{
  known_url, update_property_state, get_property_state,
}
use yurt_device_controller.EdgeX.DeviceClient.Properties.Commands.{Serves, Desires, set_then_get}
use yurt_device_controller.Controllers.Session.{Session, any, is_property_set}
use yurt_device_controller.Controllers.Kube.{KubeClient}
use yurt_device_controller.Controllers.Devices.Reconciler.{DeviceReconciler}
use yurt_device_controller.Controllers.Devices.Properties.{Progress, reconcile_property}
use yurt_device_controller.Controllers.Devices.Properties.Answers.{returns}
use yurt_device_controller.Controllers.Devices.Properties.Settling.{
  over_edgex, second_round_sets_again,
}
use yurt_device_controller.Tests.Samples.{
  sample_device, sample_status, wanted_temperature, conditions,
}
use yurt_device_controller.Tests.Wire.{go, codec}

-- The resource of the command has another name than the command.
abbrev pub set_temperature : CoreCommand
set_temperature = record {
  name = "temperature";
  can_get = true;
  can_set = true;
  url = "http://command:59882";
  path = "/temperature";
  parameters = "Celsius" ∷ [];
}

abbrev pub one_command : Http String
one_command = record {
  send = λ m url body w. elim m [
    | put_method ↦ (value (record { status_code = 200; body = "" }), body)
    | _ ↦ (value (record { status_code = 200; body = w }), w)
  ];
}

abbrev pub plain_codec : Codec
plain_codec = record codec {
  encode_values = λ d. elim d [ [] ↦ "" | (e ∷ es) ↦ e.1 ];
  decode_event = λ body. value (
      record {
        resource_name = "Celsius";
        simple_value = body;
        binary_value = [];
        media_type = "";
        object_value = nil;
      }
      ∷ []);
  decode_commands = λ body. value (set_temperature ∷ []);
}

abbrev pub command_client : EdgexDeviceClient String
command_client = record {
  http = one_command;
  codec = plain_codec;
  go = go;
  core_meta_addr = "meta:59881";
  core_command_addr = "command:59882";
}

abbrev pub any_cluster : KubeClient String Device
any_cluster = record {
  get = λ n w. (value sample_device, w);
  patch_finalizers = λ d fs w. (value sample_device, w);
  update_status = λ d w. (value d, w);
  create = λ d w. (value tt, w);
  delete = λ d w. (value tt, w);
  list = λ pool namespace w. (value [], w);
}

abbrev pub text_reconciler : DeviceReconciler String
text_reconciler = record {
  client = any_cluster;
  conditions = conditions;
  device_cli = record {
    create = λ d w. (ok d, w);
    delete = λ n w. (fail (new_error "refused"), w);
    update = λ d w. (ok none, w);
    get = λ n w. (fail (new_error "Device not found"), w);
    list = λ w. (ok [], w);
    get_property_state = λ n d w. (ok (none, some (new_error "refused")), w);
    update_property_state = λ n d w. (ok tt, w);
    list_properties_state = λ d w. (([], [], none), w);
  };
  node_pool = "hangzhou";
}

command_client-Serves :
    Serves command_client (get_edgex_name sample_device.metadata) set_temperature "Celsius" (λ w. w)
unfolding value_of_reading object_text find_put_command find_get_url
command_client-Serves = record {
  commands = λ w. (w, w, set_temperature ∷ [], refl, refl, refl, refl, refl);
  reads = λ w. (w, w, _, refl, refl, refl, ground (arith, eq_iff w ""), refl);
  writes = λ v w. ("", v, refl, refl, refl);
  one_parameter = refl;
  has_url = refl;
}

sample-Desires : Desires command_client sample_device set_temperature wanted_temperature
unfolding known_url
sample-Desires = record { named = refl; stands = refl; no_put_url = refl; remembers = inl refl }

abbrev first_round : Outcome Progress × Session String Device
first_round =
    reconcile_property
      (over_edgex text_reconciler command_client set_temperature "Celsius" (λ w. w)) sample_device
      wanted_temperature (sample_status, [])
      (record { world = "19"; object = sample_device; trace = [] })

abbrev second_round : Outcome Progress × Session String Device
second_round =
    reconcile_property
      (over_edgex text_reconciler command_client set_temperature "Celsius" (λ w. w)) sample_device
      wanted_temperature (sample_status, [])
      (record { world = first_round.1.world; object = sample_device; trace = [] })

set_then_get_example :
    (w₁ : String) × (w₂ : String) × (update_property_state command_client "temperature"
        sample_device "19"
      ≡ (ok tt, w₁))
    × (get_property_state command_client "temperature" sample_device w₁ ≡ (
      ok (
        some (record {
          name = "temperature";
          get_url = "http://command:59882/temperature";
          actual_value = "";
        }),
        none,
      ),
      w₂,
    ))
set_then_get_example =
    set_then_get command_client set_temperature "Celsius" (λ w. w) sample_device
      command_client-Serves wanted_temperature "19" sample-Desires

second_round_sets_again_example :
    (returns first_round.0 ≡ true)
    × (returns second_round.0 ≡ true)
    × (first_round.1.world ≡ "21")
    × (second_round.1.world ≡ "21")
    × (any is_property_set second_round.1.trace ≡ true)
second_round_sets_again_example =
    second_round_sets_again text_reconciler command_client set_temperature "Celsius" (λ w. w)
      sample_device sample_device wanted_temperature (sample_status, []) (sample_status, []) "19"
      command_client-Serves command_client-Serves sample-Desires sample-Desires refl
