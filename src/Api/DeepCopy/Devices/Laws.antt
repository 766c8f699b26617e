-- ===== src/Api/DeepCopy/Devices/Laws.antt =====
-- The copies of devices are deep.
use yurt_device_controller.Prelude.{ℕ, suc, ◌≡◌, ◌≤◌, refl, ap, arith, String, some, List}
use yurt_device_controller.Prelude.Dict.{Dict}
use yurt_device_controller.Prelude.Memory.{
  Ref, nil, at, view_ref, view_entries, ref_addresses, entries_addresses, no_addresses, pure,
  copy_object, copy_entries, IsDeep, Within,
}
use yurt_device_controller.Prelude.Memory.Deep.{
  Within-mono, IsDeep-pure, IsDeep-copy_map, IsDeep-clone, IsDeep-copy_object, IsDeep-copy_elements,
  IsDeep-copy_entries, IsDeep-copy_both,
}
use yurt_device_controller.Api.Devices.{DesiredPropertyState, ActualPropertyState}
use yurt_device_controller.Api.DeepCopy.Machinery.{Foreign, Machinery, IsCopying}
use yurt_device_controller.Api.DeepCopy.Devices.{
  copy_device_spec_into, copy_protocol_properties, copy_protocol_properties_into,
  copy_device_status_into, copy_device_into, copy_device_list_into,
}
use yurt_device_controller.Api.DeepCopy.Devices.Views

pub copy_device_spec_into-IsDeep :
    IsDeep copy_device_spec_into Views.read_device_spec Views.device_spec_addresses
unfolding copy_device_spec_into
copy_device_spec_into-IsDeep =
    let parts =
      IsDeep-copy_both (IsDeep-copy_object (IsDeep-copy_entries (IsDeep-copy_map {A = String}))) (
        IsDeep-copy_both (IsDeep-clone {A = List String})
          (IsDeep-copy_map {A = DesiredPropertyState})) in
    record {
      same = λ s n.
          ap
            (λ q. record (Views.read_device_spec s) {
              protocols = q.0;
              labels = q.1.0;
              device_properties = q.1.1;
            })
            (parts.same (s.protocols, (s.labels, s.device_properties)) n);
      grows = λ s n. parts.grows (s.protocols, (s.labels, s.device_properties)) n;
      separate = λ s n. parts.separate (s.protocols, (s.labels, s.device_properties)) n;
    }

module _ {X Y : Foreign} {lib : Machinery X Y} (lawful : IsCopying lib) where
  pub copy_device_status_into-IsDeep :
      IsDeep
        (copy_device_status_into lib)
        (Views.read_device_status lib)
        (Views.device_status_addresses lib)
  unfolding copy_device_status_into
  copy_device_status_into-IsDeep =
      let parts =
        IsDeep-copy_both (IsDeep-copy_map {A = ActualPropertyState})
          (IsDeep-copy_object (IsDeep-copy_elements lawful.conditions)) in
      record {
        same = λ s n.
            ap
              (λ q. record (Views.read_device_status lib s) {
                device_properties = q.0;
                conditions = q.1;
              })
              (parts.same (s.device_properties, s.conditions) n);
        grows = λ s n. parts.grows (s.device_properties, s.conditions) n;
        separate = λ s n. parts.separate (s.device_properties, s.conditions) n;
      }

  pub copy_device_into-IsDeep :
      IsDeep (copy_device_into lib) (Views.read_device lib) (Views.device_addresses lib)
  unfolding copy_device_into
  copy_device_into-IsDeep =
      let parts =
        IsDeep-copy_both lawful.object_metas
          (IsDeep-copy_both copy_device_spec_into-IsDeep copy_device_status_into-IsDeep) in
      record {
        same = λ d n.
            ap
              (λ q. record (Views.read_device lib d) {
                object_meta = q.0;
                spec = q.1.0;
                status = q.1.1;
              })
              (parts.same (d.object_meta, (d.spec, d.status)) n);
        grows = λ d n. parts.grows (d.object_meta, (d.spec, d.status)) n;
        separate = λ d n. parts.separate (d.object_meta, (d.spec, d.status)) n;
      }

  pub copy_device_list_into-IsDeep :
      IsDeep
        (copy_device_list_into lib)
        (Views.read_device_list lib)
        (Views.device_list_addresses lib)
  unfolding copy_device_list_into
  copy_device_list_into-IsDeep =
      let parts =
        IsDeep-copy_both lawful.list_metas
          (IsDeep-copy_object (IsDeep-copy_elements copy_device_into-IsDeep)) in
      record {
        same = λ l n.
            ap (λ q. record (Views.read_device_list lib l) { list_meta = q.0; items = q.1 })
              (parts.same (l.list_meta, l.items) n);
        grows = λ l n. parts.grows (l.list_meta, l.items) n;
        separate = λ l n. parts.separate (l.list_meta, l.items) n;
      }

pub copy_protocol_properties-IsDeep :
    IsDeep copy_protocol_properties
      (view_ref (view_entries λ t. t))
      (ref_addresses (entries_addresses no_addresses))
unfolding copy_protocol_properties copy_protocol_properties_into copy_object
copy_protocol_properties-IsDeep = record { same = same; grows = grows; separate = separate }
  where
    entries :
        IsDeep
          (copy_entries (pure {A = String}))
          (view_entries λ t. t)
          (entries_addresses no_addresses)
    entries = IsDeep-copy_entries (IsDeep-pure λ t. t)

    same :
        (r : Ref (Dict String)) (n : ℕ)
        → view_ref (view_entries λ (t : String). t) (copy_protocol_properties r n).0
          ≡ view_ref (view_entries λ t. t) r
    same nil n = refl
    same (at a d) n = ap some (entries.same d (suc (suc n)))

    grows : (r : Ref (Dict String)) (n : ℕ) → n ≤ (copy_protocol_properties r n).1
    grows nil n = omega arith
    grows (at a d) n = omega (arith, entries.grows d (suc (suc n)))

    separate :
        (r : Ref (Dict String)) (n : ℕ)
        → Within n
            (copy_protocol_properties r n).1
            (ref_addresses (entries_addresses no_addresses) (copy_protocol_properties r n).0)
    separate nil n = tt
    separate (at a d) n =
        let higher = entries.grows d (suc (suc n)) in
        (
          omega arith,
          omega arith,
          Within-mono n (suc (suc n)) _ _ _ (omega arith) (omega arith)
              (entries.separate d (suc (suc n))),
        )
