-- ===== src/Api/DeepCopy/Profiles/Laws.antt =====
-- The copies of device profiles are deep.
use yurt_device_controller.Prelude.{String, List, ap}
use yurt_device_controller.Prelude.Memory.{IsDeep}
use yurt_device_controller.Prelude.Memory.Deep.{
  IsDeep-copy_map, IsDeep-clone, IsDeep-copy_object, IsDeep-copy_elements, IsDeep-copy_both,
}
use yurt_device_controller.Api.DeepCopy.Machinery.{Foreign, Machinery, IsCopying}
use yurt_device_controller.Api.DeepCopy.Profiles.{
  copy_resource_into, copy_operation_into, copy_command_into, copy_profile_spec_into,
  copy_profile_into, copy_profile_list_into,
}
use yurt_device_controller.Api.DeepCopy.Profiles.Views

pub copy_resource_into-IsDeep :
    IsDeep copy_resource_into Views.read_resource Views.resource_addresses
unfolding copy_resource_into
copy_resource_into-IsDeep =
    let parts = IsDeep-copy_map {A = String} in
    record {
      same = λ r n.
          ap (λ q. record (Views.read_resource r) { attributes = q }) (parts.same r.attributes n);
      grows = λ r n. parts.grows r.attributes n;
      separate = λ r n. parts.separate r.attributes n;
    }

pub copy_operation_into-IsDeep :
    IsDeep copy_operation_into Views.read_operation Views.operation_addresses
unfolding copy_operation_into
copy_operation_into-IsDeep =
    let parts = IsDeep-copy_map {A = String} in
    record {
      same = λ o n.
          ap (λ q. record (Views.read_operation o) { mappings = q }) (parts.same o.mappings n);
      grows = λ o n. parts.grows o.mappings n;
      separate = λ o n. parts.separate o.mappings n;
    }

pub copy_command_into-IsDeep : IsDeep copy_command_into Views.read_command Views.command_addresses
unfolding copy_command_into
copy_command_into-IsDeep =
    let parts = IsDeep-copy_object (IsDeep-copy_elements copy_operation_into-IsDeep) in
    record {
      same = λ c n.
          ap (λ q. record (Views.read_command c) { resource_operations = q })
            (parts.same c.resource_operations n);
      grows = λ c n. parts.grows c.resource_operations n;
      separate = λ c n. parts.separate c.resource_operations n;
    }

pub copy_profile_spec_into-IsDeep :
    IsDeep copy_profile_spec_into Views.read_profile_spec Views.profile_spec_addresses
unfolding copy_profile_spec_into
copy_profile_spec_into-IsDeep =
    let parts = IsDeep-copy_both (IsDeep-clone {A = List String}) (
      IsDeep-copy_both (IsDeep-copy_object (IsDeep-copy_elements copy_resource_into-IsDeep))
        (IsDeep-copy_object (IsDeep-copy_elements copy_command_into-IsDeep))) in
    record {
      same = λ s n.
          ap
            (λ q. record (Views.read_profile_spec s) {
              labels = q.0;
              device_resources = q.1.0;
              device_commands = q.1.1;
            })
            (parts.same (s.labels, (s.device_resources, s.device_commands)) n);
      grows = λ s n. parts.grows (s.labels, (s.device_resources, s.device_commands)) n;
      separate = λ s n. parts.separate (s.labels, (s.device_resources, s.device_commands)) n;
    }

module _ {X Y : Foreign} {lib : Machinery X Y} (lawful : IsCopying lib) where
  pub copy_profile_into-IsDeep :
      IsDeep (copy_profile_into lib) (Views.read_profile lib) (Views.profile_addresses lib)
  unfolding copy_profile_into
  copy_profile_into-IsDeep =
      let parts = IsDeep-copy_both lawful.object_metas copy_profile_spec_into-IsDeep in
      record {
        same = λ dp n.
            ap (λ q. record (Views.read_profile lib dp) { object_meta = q.0; spec = q.1 })
              (parts.same (dp.object_meta, dp.spec) n);
        grows = λ dp n. parts.grows (dp.object_meta, dp.spec) n;
        separate = λ dp n. parts.separate (dp.object_meta, dp.spec) n;
      }

  pub copy_profile_list_into-IsDeep :
      IsDeep
        (copy_profile_list_into lib)
        (Views.read_profile_list lib)
        (Views.profile_list_addresses lib)
  unfolding copy_profile_list_into
  copy_profile_list_into-IsDeep =
      let parts =
        IsDeep-copy_both lawful.list_metas
          (IsDeep-copy_object (IsDeep-copy_elements copy_profile_into-IsDeep)) in
      record {
        same = λ l n.
            ap (λ q. record (Views.read_profile_list lib l) { list_meta = q.0; items = q.1 })
              (parts.same (l.list_meta, l.items) n);
        grows = λ l n. parts.grows (l.list_meta, l.items) n;
        separate = λ l n. parts.separate (l.list_meta, l.items) n;
      }
