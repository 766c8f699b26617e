-- ===== src/Tests/Storing.antt =====
-- A platform that keeps the values of properties in a map, and a device that desires two.
use yurt_device_controller.Prelude.{
  ◌≡◌, inl, ◌==◌, if◌then◌else◌, refl, arith, eq_iff, true, false, String, Option, none, some, [],
  ◌∷◌, test_of_ne, ne_of_test,
}
use yurt_device_controller.Prelude.Dict.{Dict, lookup, insert, lookup-insert}
use yurt_device_controller.Prelude.Io.{ok, fail, value, new_error}
use yurt_device_controller.Api.{Device, DesiredPropertyState}
use yurt_device_controller.Controllers.Session.{any, is_property_set}
use yurt_device_controller.Controllers.Devices.Reconciler.{DeviceReconciler}
use yurt_device_controller.Controllers.Devices.Properties.{reconcile_device_properties}
use yurt_device_controller.Controllers.Devices.Properties.Converging.{
  StoresAll, failed_after, all_held, property_values_converge,
}
use yurt_device_controller.Controllers.Devices.Properties.Edgex.{ServesAll, edgex_values_converge}
use yurt_device_controller.EdgeX.Dto.{nil}
use yurt_device_controller.EdgeX.Names.{get_edgex_name}
use yurt_device_controller.EdgeX.Http.{CoreCommand}
use yurt_device_controller.EdgeX.DeviceClient.{device_interface}
use yurt_device_controller.EdgeX.DeviceClient.Client.{EdgexDeviceClient}
use yurt_device_controller.EdgeX.DeviceClient.Readings.{
  value_of_reading, object_text, find_put_command, find_get_url,
}
use yurt_device_controller.EdgeX.DeviceClient.Properties.{known_url}
use yurt_device_controller.EdgeX.DeviceClient.Properties.Commands.{Serves, Desires}
use yurt_device_controller.EdgeX.DeviceClient.Properties.Keeping.{IsApart}
use yurt_device_controller.Tests.Commands.{
  set_temperature, command_client, plain_codec, text_reconciler,
}
use yurt_device_controller.Tests.Samples.{
  sample_device, sample_spec, sample_status, wanted_temperature, conditions,
}

abbrev text_or_empty : Option String → String
text_or_empty none = ""
text_or_empty (some v) = v

abbrev stored : String → Dict String → String
stored n w = text_or_empty (lookup n w)

abbrev wanted_humidity : DesiredPropertyState
wanted_humidity = record { name = "humidity"; put_url = ""; desired_value = "40" }

abbrev two_properties : Device
two_properties = record sample_device {
  spec = record sample_spec {
    device_properties = ("temperature", wanted_temperature) ∷ ("humidity", wanted_humidity) ∷ [];
  };
}

abbrev desired_value : Option DesiredPropertyState → String
desired_value none = ""
desired_value (some p) = p.desired_value

abbrev storing : DeviceReconciler (Dict String)
storing = record {
  client = record {
    get = λ n w. (value two_properties, w);
    patch_finalizers = λ d fs w. (value d, w);
    update_status = λ d w. (value d, w);
    create = λ d w. (value tt, w);
    delete = λ d w. (value tt, w);
    list = λ pool namespace w. (value [], w);
  };
  conditions = conditions;
  device_cli = record {
    create = λ d w. (ok d, w);
    delete = λ n w. (ok tt, w);
    update = λ d w. (ok (some d), w);
    get = λ n w. (fail (new_error "Device not found"), w);
    list = λ w. (ok [], w);
    get_property_state = λ n d w.
        (ok (some (record { name = n; get_url = "u"; actual_value = stored n w }), none), w);
    update_property_state =
        λ n d w. (ok tt, insert n (desired_value (lookup n d.spec.device_properties)) w);
    list_properties_state = λ d w. (([], [], none), w);
  };
  node_pool = "hangzhou";
}

two_properties-StoresAll :
    StoresAll storing two_properties stored two_properties.spec.device_properties
two_properties-StoresAll = (
  record {
    reads = λ w. (_, w, refl, refl, λ n. refl);
    sets = λ w. (
      insert "temperature" "21" w,
      refl,
      ground (arith, lookup-insert "temperature" "temperature" "21" w),
      λ n h. ground (arith, lookup-insert n "temperature" "21" w, test_of_ne n "temperature" h),
    );
  },
  (
    record {
      reads = λ w. (_, w, refl, refl, λ n. refl);
      sets = λ w. (
        insert "humidity" "40" w,
        refl,
        ground (arith, lookup-insert "humidity" "humidity" "40" w),
        λ n h. ground (arith, lookup-insert n "humidity" "40" w, test_of_ne n "humidity" h),
      );
    },
    tt,
  ),
)

property_values_converge_example :
    let first =
      reconcile_device_properties storing two_properties sample_status
        (record { world = []; object = two_properties; trace = [] }) in
    let second =
      reconcile_device_properties storing two_properties sample_status
        (record { world = first.1.world; object = two_properties; trace = [] }) in
    (failed_after first.0 ≡ some [])
    × (failed_after second.0 ≡ some [])
    × (all_held stored two_properties.spec.device_properties first.1.world ≡ true)
    × (all_held stored two_properties.spec.device_properties second.1.world ≡ true)
    × (any is_property_set second.1.trace ≡ false)
property_values_converge_example =
    property_values_converge storing stored two_properties two_properties sample_status
      sample_status [] refl two_properties-StoresAll two_properties-StoresAll
      ((ne_of_test "temperature" "humidity" refl, tt), (tt, tt))

-- A command service with one command, whose resource has the name of the command.
abbrev own_temperature : CoreCommand
own_temperature = record set_temperature { parameters = "temperature" ∷ [] }

abbrev own_client : EdgexDeviceClient String
own_client = record command_client {
  codec = record plain_codec {
    decode_event = λ body. value (
        record {
          resource_name = "temperature";
          simple_value = body;
          binary_value = [];
          media_type = "";
          object_value = nil;
        }
        ∷ []);
    decode_commands = λ body. value (own_temperature ∷ []);
  };
}

abbrev value_of : String → String → String
value_of n w = if n == "temperature" then w else ""

own_client-Serves :
    Serves own_client
      (get_edgex_name sample_device.metadata)
      own_temperature
      "temperature"
      (value_of "temperature")
unfolding value_of_reading object_text find_put_command find_get_url
own_client-Serves = record {
  commands = λ w. (w, w, own_temperature ∷ [], refl, refl, refl, refl, refl);
  reads = λ w. (w, w, _, refl, refl, refl, ground (arith, eq_iff w ""), refl);
  writes = λ v w. ("", v, refl, refl, refl);
  one_parameter = refl;
  has_url = refl;
}

own_client-IsApart : IsApart own_client own_temperature "temperature" value_of
own_client-IsApart = record {
  gets = λ n url body w. refl;
  puts = λ n v w other. ground (arith, test_of_ne n "temperature" other);
}

sample-Desires : Desires own_client sample_device own_temperature wanted_temperature
unfolding known_url
sample-Desires = record { named = refl; stands = refl; no_put_url = refl; remembers = inl refl }

sample-ServesAll :
    ServesAll text_reconciler own_client value_of sample_device sample_device.spec.device_properties
sample-ServesAll = ((own_temperature, own_client-Serves, own_client-IsApart, sample-Desires), tt)

abbrev own_reconciler : DeviceReconciler String
own_reconciler = record text_reconciler { device_cli = device_interface own_client }

edgex_values_converge_example :
    let first =
      reconcile_device_properties own_reconciler sample_device sample_status
        (record { world = "19"; object = sample_device; trace = [] }) in
    let second =
      reconcile_device_properties own_reconciler sample_device sample_status
        (record { world = first.1.world; object = sample_device; trace = [] }) in
    (failed_after first.0 ≡ some [])
    × (failed_after second.0 ≡ some [])
    × (all_held value_of sample_device.spec.device_properties first.1.world ≡ true)
    × (all_held value_of sample_device.spec.device_properties second.1.world ≡ true)
    × (any is_property_set second.1.trace ≡ false)
edgex_values_converge_example =
    edgex_values_converge text_reconciler own_client value_of sample_device sample_device
      sample_status sample_status "19" refl sample-ServesAll sample-ServesAll ((tt, tt))
