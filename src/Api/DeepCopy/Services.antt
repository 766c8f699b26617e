-- ===== src/Api/DeepCopy/Services.antt =====
-- The copies of device services.
pub mod Views
pub mod Laws
use yurt_device_controller.Prelude.{String, Bool, List}
use yurt_device_controller.Prelude.Memory.{
  Ref, Alloc, pure, ◌>>=◌, clone, copy_object, copy_elements,
}
use yurt_device_controller.Api.Meta.{Millis}
use yurt_device_controller.Api.Devices.{AdminState}
use yurt_device_controller.Api.DeepCopy.Machinery.{TypeMeta, Foreign, Machinery}

pub record DeviceServiceSpecStruct (R : Type 0 → Type 0) : Type 0 where
  pub base_address : String
  pub description : String
  pub labels : R (List String)
  pub admin_state : AdminState
  pub managed : Bool
  pub node_pool : String

pub record DeviceServiceStatusStruct (R : Type 0 → Type 0) (X : Foreign) : Type 0 where
  pub synced : Bool
  pub edge_id : String
  pub last_connected : Millis
  pub last_reported : Millis
  pub admin_state : AdminState
  pub conditions : R (List X.condition)

pub record DeviceServiceStruct (R : Type 0 → Type 0) (X : Foreign) : Type 0 where
  pub type_meta : TypeMeta
  pub object_meta : X.object_meta
  pub spec : DeviceServiceSpecStruct R
  pub status : DeviceServiceStatusStruct R X

pub record DeviceServiceListStruct (R : Type 0 → Type 0) (X : Foreign) : Type 0 where
  pub type_meta : TypeMeta
  pub list_meta : X.list_meta
  pub items : R (List (DeviceServiceStruct R X))

unfoldable pub copy_service_spec_into :
    DeviceServiceSpecStruct Ref → Alloc (DeviceServiceSpecStruct Ref)
copy_service_spec_into s = do labels ← clone s.labels; pure (record s { labels = labels })

unfoldable pub copy_service_spec :
    Ref (DeviceServiceSpecStruct Ref) → Alloc (Ref (DeviceServiceSpecStruct Ref))
copy_service_spec r = copy_object copy_service_spec_into r

module _ {X Y : Foreign} (lib : Machinery X Y) where
  unfoldable pub copy_service_status_into :
      DeviceServiceStatusStruct Ref X → Alloc (DeviceServiceStatusStruct Ref X)
  copy_service_status_into s = do
    conditions ← copy_object (copy_elements lib.copy_condition) s.conditions
    pure (record s { conditions = conditions })

  unfoldable pub copy_service_status :
      Ref (DeviceServiceStatusStruct Ref X) → Alloc (Ref (DeviceServiceStatusStruct Ref X))
  copy_service_status r = copy_object copy_service_status_into r

  unfoldable pub copy_service_into : DeviceServiceStruct Ref X → Alloc (DeviceServiceStruct Ref X)
  copy_service_into s = do
    meta ← lib.copy_object_meta s.object_meta
    spec ← copy_service_spec_into s.spec
    status ← copy_service_status_into s.status
    pure (record s { object_meta = meta; spec = spec; status = status })

  unfoldable pub copy_service :
      Ref (DeviceServiceStruct Ref X) → Alloc (Ref (DeviceServiceStruct Ref X))
  copy_service r = copy_object copy_service_into r

  unfoldable pub copy_service_list_into :
      DeviceServiceListStruct Ref X → Alloc (DeviceServiceListStruct Ref X)
  copy_service_list_into l = do
    meta ← lib.copy_list_meta l.list_meta
    items ← copy_object (copy_elements copy_service_into) l.items
    pure (record l { list_meta = meta; items = items })

  unfoldable pub copy_service_list :
      Ref (DeviceServiceListStruct Ref X) → Alloc (Ref (DeviceServiceListStruct Ref X))
  copy_service_list r = copy_object copy_service_list_into r
