-- ===== src/Tests/DeepCopies.antt =====
-- Copies of a device, a list of profiles and a device service.
use yurt_device_controller.Prelude.{
  ◌≡◌, refl, arith, true, false, String, Option, none, [], ◌∷◌, is_some,
}
use yurt_device_controller.Prelude.Dict.{Dict}
use yurt_device_controller.Prelude.Memory.{
  Ref, nil, at, pure, copy_object, copy_entries, copy_elements, view_ref, view_entries,
  ref_addresses, entries_addresses, no_addresses, disjoint, Within,
}
use yurt_device_controller.Prelude.Memory.Deep.{IsDeep-pure, IsDeep-copy_map}
use yurt_device_controller.Api.DeepCopy.Machinery.{Foreign, Machinery, IsCopying}
use yurt_device_controller.Api.DeepCopy.Devices.{
  DeviceStruct, copy_device, copy_device_into, copy_device_spec_into, copy_device_status_into,
}
use yurt_device_controller.Api.DeepCopy.Objects.{Object, device, copy_of, copy_device_object}
use yurt_device_controller.Api.DeepCopy.Objects.Laws as Laws
use yurt_device_controller.Api.DeepCopy.Parts

-- Object metadata with the labels alone, and list metadata and conditions as texts.
abbrev plain : Foreign
plain = record { object_meta = Ref (Dict String); list_meta = String; condition = String }

abbrev seen : Foreign
seen = record { object_meta = Option (Dict String); list_meta = String; condition = String }

abbrev small_lib : Machinery plain seen
small_lib = record {
  copy_object_meta = copy_object (copy_entries pure);
  view_object_meta = view_ref (view_entries λ t. t);
  object_meta_addresses = ref_addresses (entries_addresses no_addresses);
  copy_list_meta = pure;
  view_list_meta = λ t. t;
  list_meta_addresses = no_addresses;
  copy_condition = pure;
  view_condition = λ t. t;
  condition_addresses = no_addresses;
}

small_lib-IsCopying : IsCopying small_lib
small_lib-IsCopying = record {
  object_metas = IsDeep-copy_map;
  list_metas = IsDeep-pure _;
  conditions = IsDeep-pure _;
}

-- Its labels stand at 3 and its protocols at 4, one of which is nil; it has no properties.
abbrev thermometer : DeviceStruct Ref plain
thermometer = record {
  type_meta = record { kind = "Device"; api_version = "device.openyurt.io/v1alpha1" };
  object_meta = at 1 (("nodepool", "hangzhou") ∷ []);
  spec = record {
    description = "";
    admin_state = "UNLOCKED";
    operating_state = "UP";
    protocols = at 4 (("other", nil) ∷ ("modbus", at 5 (("port", "502") ∷ [])) ∷ []);
    labels = at 3 ("t" ∷ []);
    location = "";
    service = "modbus";
    profile = "thermometer";
    notify = false;
    managed = true;
    node_pool = "hangzhou";
    device_properties = nil;
  };
  status = record {
    last_connected = 0;
    last_reported = 0;
    synced = true;
    device_properties = nil;
    edge_id = "17";
    admin_state = "UNLOCKED";
    operating_state = "UP";
    conditions = at 6 [];
  };
}

abbrev in_memory : Object plain
in_memory = device (at 2 thermometer)

copied_at :
    Laws.copy_addresses small_lib (copy_of small_lib in_memory 7).0 ≡ 7 ∷ 8 ∷ 9 ∷ 10 ∷ 11 ∷ 12 ∷ []
unfolding copy_of copy_device_object copy_device copy_device_into copy_device_spec_into
    copy_device_status_into copy_object copy_entries copy_elements
copied_at = refl

no_object : (copy_of small_lib (device nil) 7).0 ≡ none
unfolding copy_of copy_device_object copy_device copy_device_into copy_device_spec_into
    copy_device_status_into copy_object copy_entries copy_elements
no_object = refl

copy_shares_nothing_example :
    (Laws.read_copy small_lib (copy_of small_lib in_memory 7).0
      ≡ Laws.read_object small_lib in_memory)
    × (is_some (copy_of small_lib in_memory 7).0 ≡ is_some (Laws.read_object small_lib in_memory))
    × (disjoint
          (Laws.copy_addresses small_lib (copy_of small_lib in_memory 7).0)
          (Laws.addresses small_lib in_memory)
        ≡ true)
    × Within 0
        (copy_of small_lib in_memory 7).1
        (Laws.copy_addresses small_lib (copy_of small_lib in_memory 7).0)
copy_shares_nothing_example =
    Laws.copy_shares_nothing small_lib small_lib-IsCopying in_memory 7 (omega arith)

part_copies_are_deep_example : Parts.PartsAreDeep small_lib
part_copies_are_deep_example = Parts.part_copies_are_deep small_lib-IsCopying
