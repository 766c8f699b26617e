-- ===== src/Api/DeepCopy/Objects/Laws.antt =====
-- The copy of any object reads as the object does, and shares nothing with it.
use yurt_device_controller.Prelude.{
  ℕ, ◌≡◌, ◌≤◌, refl, sym, arith, true, Option, none, some, List, [], is_some, ap, ◌∙◌,
}
use yurt_device_controller.Prelude.Memory.{
  Ref, nil, at, Alloc, Within, IsDeep, copy_object, view_ref, ref_addresses, disjoint,
}
use yurt_device_controller.Prelude.Memory.Deep.{IsDeep-copy_object, disjoint-Within, Within-mono}
use yurt_device_controller.Api.DeepCopy.Machinery.{Foreign, Machinery, IsCopying}
use yurt_device_controller.Api.DeepCopy.Devices.{
  DeviceStruct, DeviceListStruct, copy_device, copy_device_list,
}
use yurt_device_controller.Api.DeepCopy.Devices.Views as DeviceViews
use yurt_device_controller.Api.DeepCopy.Devices.Laws as DeviceLaws
use yurt_device_controller.Api.DeepCopy.Services.{
  DeviceServiceStruct, DeviceServiceListStruct, copy_service, copy_service_list,
}
use yurt_device_controller.Api.DeepCopy.Services.Views as ServiceViews
use yurt_device_controller.Api.DeepCopy.Services.Laws as ServiceLaws
use yurt_device_controller.Api.DeepCopy.Profiles.{
  DeviceProfileStruct, DeviceProfileListStruct, copy_profile, copy_profile_list,
}
use yurt_device_controller.Api.DeepCopy.Profiles.Views as ProfileViews
use yurt_device_controller.Api.DeepCopy.Profiles.Laws as ProfileLaws
use yurt_device_controller.Api.DeepCopy.Objects.{
  Object, device, device_list, service, service_list, profile, profile_list, boxed, copy_of,
  copy_device_object, copy_device_list_object, copy_service_object, copy_service_list_object,
  copy_profile_object, copy_profile_list_object,
}

-- What an object reads as, at all depths.
pub data Contents (Y : Foreign) : Type 0 where
  a_device : DeviceStruct Option Y → Contents Y
  a_device_list : DeviceListStruct Option Y → Contents Y
  a_service : DeviceServiceStruct Option Y → Contents Y
  a_service_list : DeviceServiceListStruct Option Y → Contents Y
  a_profile : DeviceProfileStruct Option Y → Contents Y
  a_profile_list : DeviceProfileListStruct Option Y → Contents Y

abbrev tagged : {C : Type 0} {Y : Foreign} → (C → Contents Y) → Option C → Option (Contents Y)
tagged tag none = none
tagged tag (some c) = some (tag c)

module _ {X Y : Foreign} (lib : Machinery X Y) where
  -- Nothing is read through a nil pointer.
  abbrev pub read_object : Object X → Option (Contents Y)
  read_object (device r) = tagged a_device (view_ref (DeviceViews.read_device lib) r)
  read_object (device_list r) = tagged a_device_list (view_ref (DeviceViews.read_device_list lib) r)
  read_object (service r) = tagged a_service (view_ref (ServiceViews.read_service lib) r)
  read_object (service_list r) =
      tagged a_service_list (view_ref (ServiceViews.read_service_list lib) r)
  read_object (profile r) = tagged a_profile (view_ref (ProfileViews.read_profile lib) r)
  read_object (profile_list r) =
      tagged a_profile_list (view_ref (ProfileViews.read_profile_list lib) r)

  abbrev pub addresses : Object X → List ℕ
  addresses (device r) = ref_addresses (DeviceViews.device_addresses lib) r
  addresses (device_list r) = ref_addresses (DeviceViews.device_list_addresses lib) r
  addresses (service r) = ref_addresses (ServiceViews.service_addresses lib) r
  addresses (service_list r) = ref_addresses (ServiceViews.service_list_addresses lib) r
  addresses (profile r) = ref_addresses (ProfileViews.profile_addresses lib) r
  addresses (profile_list r) = ref_addresses (ProfileViews.profile_list_addresses lib) r

  abbrev pub read_copy : Option (Object X) → Option (Contents Y)
  read_copy none = none
  read_copy (some o) = read_object o

  abbrev pub copy_addresses : Option (Object X) → List ℕ
  copy_addresses none = []
  copy_addresses (some o) = addresses o

  -- A copy `c`, allocated from `n` to `m`, of the object `o`.
  record IsCopy (o : Object X) (n m : ℕ) (c : Option (Object X)) : Type 0 where
    pub same : read_copy c ≡ read_object o
    pub boxed_alike : is_some c ≡ is_some (read_object o)
    pub grows : n ≤ m
    pub separate : Within n m (copy_addresses c)

  boxed-IsCopy :
      {A C : Type 0} {copy : A → Alloc A} {view : A → C} {of : A → List ℕ} (kind : Ref A → Object X)
      (tag : C → Contents Y)
      → IsDeep copy view of
      → ((r : Ref A) → read_object (kind r) ≡ tagged tag (view_ref view r))
      → ((r : Ref A) → addresses (kind r) ≡ ref_addresses of r)
      → (r : Ref A) (n : ℕ)
      → IsCopy (kind r) n (copy_object copy r n).1 (boxed kind (copy_object copy r n).0)
  unfolding copy_object
  boxed-IsCopy {copy = copy} {view = view} {of = of} kind tag deep reads leads nil n = record {
    same = sym (reads nil);
    boxed_alike = rw (reads nil);
    grows = omega arith;
    separate = tt;
  }
  boxed-IsCopy {copy = copy} {view = view} {of = of} kind tag deep reads leads (at a x) n =
      let whole = IsDeep-copy_object deep in
      record {
        same = reads _ ∙ ap (tagged tag) (whole.same (at a x) n) ∙ sym (reads (at a x));
        boxed_alike = rw reads;
        grows = whole.grows (at a x) n;
        separate = rw leads (whole.separate (at a x) n);
      }

  module _ (lawful : IsCopying lib) where
    copy_of-IsCopy : (o : Object X) (n : ℕ) → IsCopy o n (copy_of lib o n).1 (copy_of lib o n).0
    unfolding copy_of copy_device_object copy_device_list_object copy_service_object
        copy_service_list_object copy_profile_object copy_profile_list_object copy_device
        copy_device_list copy_service copy_service_list copy_profile copy_profile_list
    copy_of-IsCopy (device r) n =
        boxed-IsCopy device a_device (DeviceLaws.copy_device_into-IsDeep lawful) (λ q. refl)
          (λ q. refl) r n
    copy_of-IsCopy (device_list r) n =
        boxed-IsCopy device_list a_device_list (DeviceLaws.copy_device_list_into-IsDeep lawful)
          (λ q. refl) (λ q. refl) r n
    copy_of-IsCopy (service r) n =
        boxed-IsCopy service a_service (ServiceLaws.copy_service_into-IsDeep lawful) (λ q. refl)
          (λ q. refl) r n
    copy_of-IsCopy (service_list r) n =
        boxed-IsCopy service_list a_service_list (ServiceLaws.copy_service_list_into-IsDeep lawful)
          (λ q. refl) (λ q. refl) r n
    copy_of-IsCopy (profile r) n =
        boxed-IsCopy profile a_profile (ProfileLaws.copy_profile_into-IsDeep lawful) (λ q. refl)
          (λ q. refl) r n
    copy_of-IsCopy (profile_list r) n =
        boxed-IsCopy profile_list a_profile_list (ProfileLaws.copy_profile_list_into-IsDeep lawful)
          (λ q. refl) (λ q. refl) r n

    -- Where the copies of the libraries are deep and all that an object leads to is allocated
    -- before the copying: the copy by DeepCopyObject, of each of the six kinds, reads as the
    -- object does at all depths, nil maps and slices included; it is the nil interface exactly if
    -- the object's pointer is nil; it leads to no address that the object leads to; and all it
    -- leads to is allocated when the copying ends.
    pub copy_shares_nothing :
        (o : Object X) (n : ℕ)
        → Within 0 n (addresses o)
        → (read_copy (copy_of lib o n).0 ≡ read_object o)
          × (is_some (copy_of lib o n).0 ≡ is_some (read_object o))
          × (disjoint (copy_addresses (copy_of lib o n).0) (addresses o) ≡ true)
          × Within 0 (copy_of lib o n).1 (copy_addresses (copy_of lib o n).0)
    copy_shares_nothing o n before =
        let c = copy_of-IsCopy o n in
        (
          c.same,
          c.boxed_alike,
          disjoint-Within n _ _ _ c.separate before,
          Within-mono 0 n _ _ _ (omega arith) (omega arith) c.separate,
        )
