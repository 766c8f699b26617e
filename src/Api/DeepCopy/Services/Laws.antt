-- ===== src/Api/DeepCopy/Services/Laws.antt =====
-- The copies of device services are deep.
use yurt_device_controller.Prelude.{String, List, ap}
use yurt_device_controller.Prelude.Memory.{IsDeep}
use yurt_device_controller.Prelude.Memory.Deep.{
  IsDeep-clone, IsDeep-copy_object, IsDeep-copy_elements, IsDeep-copy_both,
}
use yurt_device_controller.Api.DeepCopy.Machinery.{Foreign, Machinery, IsCopying}
use yurt_device_controller.Api.DeepCopy.Services.{
  copy_service_spec_into, copy_service_status_into, copy_service_into, copy_service_list_into,
}
use yurt_device_controller.Api.DeepCopy.Services.Views

pub copy_service_spec_into-IsDeep :
    IsDeep copy_service_spec_into Views.read_service_spec Views.service_spec_addresses
unfolding copy_service_spec_into
copy_service_spec_into-IsDeep =
    let parts = IsDeep-clone {A = List String} in
    record {
      same = λ s n.
          ap (λ q. record (Views.read_service_spec s) { labels = q }) (parts.same s.labels n);
      grows = λ s n. parts.grows s.labels n;
      separate = λ s n. parts.separate s.labels n;
    }

module _ {X Y : Foreign} {lib : Machinery X Y} (lawful : IsCopying lib) where
  pub copy_service_status_into-IsDeep :
      IsDeep
        (copy_service_status_into lib)
        (Views.read_service_status lib)
        (Views.service_status_addresses lib)
  unfolding copy_service_status_into
  copy_service_status_into-IsDeep =
      let parts = IsDeep-copy_object (IsDeep-copy_elements lawful.conditions) in
      record {
        same = λ s n.
            ap (λ q. record (Views.read_service_status lib s) { conditions = q })
              (parts.same s.conditions n);
        grows = λ s n. parts.grows s.conditions n;
        separate = λ s n. parts.separate s.conditions n;
      }

  pub copy_service_into-IsDeep :
      IsDeep (copy_service_into lib) (Views.read_service lib) (Views.service_addresses lib)
  unfolding copy_service_into
  copy_service_into-IsDeep =
      let parts =
        IsDeep-copy_both lawful.object_metas
          (IsDeep-copy_both copy_service_spec_into-IsDeep copy_service_status_into-IsDeep) in
      record {
        same = λ s n.
            ap
              (λ q. record (Views.read_service lib s) {
                object_meta = q.0;
                spec = q.1.0;
                status = q.1.1;
              })
              (parts.same (s.object_meta, (s.spec, s.status)) n);
        grows = λ s n. parts.grows (s.object_meta, (s.spec, s.status)) n;
        separate = λ s n. parts.separate (s.object_meta, (s.spec, s.status)) n;
      }

  pub copy_service_list_into-IsDeep :
      IsDeep
        (copy_service_list_into lib)
        (Views.read_service_list lib)
        (Views.service_list_addresses lib)
  unfolding copy_service_list_into
  copy_service_list_into-IsDeep =
      let parts =
        IsDeep-copy_both lawful.list_metas
          (IsDeep-copy_object (IsDeep-copy_elements copy_service_into-IsDeep)) in
      record {
        same = λ l n.
            ap (λ q. record (Views.read_service_list lib l) { list_meta = q.0; items = q.1 })
              (parts.same (l.list_meta, l.items) n);
        grows = λ l n. parts.grows (l.list_meta, l.items) n;
        separate = λ l n. parts.separate (l.list_meta, l.items) n;
      }
