-- ===== src/Api/DeepCopy/Devices.antt =====
-- The copies of devices.
pub mod Views
pub mod Laws
use yurt_device_controller.Prelude.{ℕ, String, Bool, Option, List, []}
use yurt_device_controller.Prelude.Dict.{Dict}
use yurt_device_controller.Prelude.Memory.{
  Ref, nil, at, Alloc, pure, ◌>>=◌, fresh, clone, copy_object, copy_elements, copy_entries,
}
use yurt_device_controller.Api.Meta.{Millis}
use yurt_device_controller.Api.Devices.{
  AdminState, OperatingState, DesiredPropertyState, ActualPropertyState,
}
use yurt_device_controller.Api.DeepCopy.Machinery.{TypeMeta, Foreign, Machinery}

pub record DeviceSpecStruct (R : Type 0 → Type 0) : Type 0 where
  pub description : String
  pub admin_state : AdminState
  pub operating_state : OperatingState
  pub protocols : R (Dict (R (Dict String)))
  pub labels : R (List String)
  pub location : String
  pub service : String
  pub profile : String
  pub notify : Bool
  pub managed : Bool
  pub node_pool : String
  pub device_properties : R (Dict DesiredPropertyState)

pub record DeviceStatusStruct (R : Type 0 → Type 0) (X : Foreign) : Type 0 where
  pub last_connected : Millis
  pub last_reported : Millis
  pub synced : Bool
  pub device_properties : R (Dict ActualPropertyState)
  pub edge_id : String
  pub admin_state : AdminState
  pub operating_state : OperatingState
  pub conditions : R (List X.condition)

pub record DeviceStruct (R : Type 0 → Type 0) (X : Foreign) : Type 0 where
  pub type_meta : TypeMeta
  pub object_meta : X.object_meta
  pub spec : DeviceSpecStruct R
  pub status : DeviceStatusStruct R X

pub record DeviceListStruct (R : Type 0 → Type 0) (X : Foreign) : Type 0 where
  pub type_meta : TypeMeta
  pub list_meta : X.list_meta
  pub items : R (List (DeviceStruct R X))

-- `DeepCopyInto` gives what it writes into `*out`: a copy of all fields (`*out = *in`), in which
-- the references are then replaced.
unfoldable pub copy_desired_property_into : DesiredPropertyState → Alloc DesiredPropertyState
copy_desired_property_into p = pure p

unfoldable pub copy_desired_property : Ref DesiredPropertyState → Alloc (Ref DesiredPropertyState)
copy_desired_property r = copy_object copy_desired_property_into r

unfoldable pub copy_actual_property_into : ActualPropertyState → Alloc ActualPropertyState
copy_actual_property_into p = pure p

unfoldable pub copy_actual_property : Ref ActualPropertyState → Alloc (Ref ActualPropertyState)
copy_actual_property r = copy_object copy_actual_property_into r

-- `DeepCopyInto` makes a map for a nil one too.
unfoldable pub copy_protocol_properties_into : Ref (Dict String) → Alloc (Ref (Dict String))
copy_protocol_properties_into nil = do p ← fresh; pure (at p [])
copy_protocol_properties_into (at a d) = do p ← fresh; e ← copy_entries pure d; pure (at p e)

-- The pointer `new(ProtocolProperties)` only carries the map to the result.
unfoldable pub copy_protocol_properties : Ref (Dict String) → Alloc (Ref (Dict String))
copy_protocol_properties nil = pure nil
copy_protocol_properties (at a d) = do
  out ← fresh
  m ← copy_protocol_properties_into (at a d)
  pure m

unfoldable pub copy_device_spec_into : DeviceSpecStruct Ref → Alloc (DeviceSpecStruct Ref)
copy_device_spec_into s = do
  protocols ← copy_object (copy_entries (copy_object (copy_entries pure))) s.protocols
  labels ← clone s.labels
  desired ← copy_object (copy_entries pure) s.device_properties
  pure (record s { protocols = protocols; labels = labels; device_properties = desired })

unfoldable pub copy_device_spec : Ref (DeviceSpecStruct Ref) → Alloc (Ref (DeviceSpecStruct Ref))
copy_device_spec r = copy_object copy_device_spec_into r

module _ {X Y : Foreign} (lib : Machinery X Y) where
  unfoldable pub copy_device_status_into :
      DeviceStatusStruct Ref X → Alloc (DeviceStatusStruct Ref X)
  copy_device_status_into s = do
    actual ← copy_object (copy_entries pure) s.device_properties
    conditions ← copy_object (copy_elements lib.copy_condition) s.conditions
    pure (record s { device_properties = actual; conditions = conditions })

  unfoldable pub copy_device_status :
      Ref (DeviceStatusStruct Ref X) → Alloc (Ref (DeviceStatusStruct Ref X))
  copy_device_status r = copy_object copy_device_status_into r

  unfoldable pub copy_device_into : DeviceStruct Ref X → Alloc (DeviceStruct Ref X)
  copy_device_into d = do
    meta ← lib.copy_object_meta d.object_meta
    spec ← copy_device_spec_into d.spec
    status ← copy_device_status_into d.status
    pure (record d { object_meta = meta; spec = spec; status = status })

  unfoldable pub copy_device : Ref (DeviceStruct Ref X) → Alloc (Ref (DeviceStruct Ref X))
  copy_device r = copy_object copy_device_into r

  unfoldable pub copy_device_list_into : DeviceListStruct Ref X → Alloc (DeviceListStruct Ref X)
  copy_device_list_into l = do
    meta ← lib.copy_list_meta l.list_meta
    items ← copy_object (copy_elements copy_device_into) l.items
    pure (record l { list_meta = meta; items = items })

  unfoldable pub copy_device_list :
      Ref (DeviceListStruct Ref X) → Alloc (Ref (DeviceListStruct Ref X))
  copy_device_list r = copy_object copy_device_list_into r
