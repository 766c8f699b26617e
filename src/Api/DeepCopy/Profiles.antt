-- ===== src/Api/DeepCopy/Profiles.antt =====
-- The copies of device profiles.
pub mod Views
pub mod Laws
use yurt_device_controller.Prelude.{String, Bool, List}
use yurt_device_controller.Prelude.Dict.{Dict}
use yurt_device_controller.Prelude.Memory.{
  Ref, Alloc, pure, ◌>>=◌, clone, copy_object, copy_elements, copy_entries,
}
use yurt_device_controller.Api.DeviceProfiles.{ResourceProperties, DeviceProfileStatus}
use yurt_device_controller.Api.DeepCopy.Machinery.{TypeMeta, Foreign, Machinery}

pub record DeviceResourceStruct (R : Type 0 → Type 0) : Type 0 where
  pub description : String
  pub name : String
  pub tag : String
  pub is_hidden : Bool
  pub properties : ResourceProperties
  pub attributes : R (Dict String)

pub record ResourceOperationStruct (R : Type 0 → Type 0) : Type 0 where
  pub device_resource : String
  pub mappings : R (Dict String)
  pub default_value : String

pub record DeviceCommandStruct (R : Type 0 → Type 0) : Type 0 where
  pub name : String
  pub is_hidden : Bool
  pub read_write : String
  pub resource_operations : R (List (ResourceOperationStruct R))

pub record DeviceProfileSpecStruct (R : Type 0 → Type 0) : Type 0 where
  pub node_pool : String
  pub description : String
  pub manufacturer : String
  pub model : String
  pub labels : R (List String)
  pub device_resources : R (List (DeviceResourceStruct R))
  pub device_commands : R (List (DeviceCommandStruct R))

pub record DeviceProfileStruct (R : Type 0 → Type 0) (X : Foreign) : Type 0 where
  pub type_meta : TypeMeta
  pub object_meta : X.object_meta
  pub spec : DeviceProfileSpecStruct R
  pub status : DeviceProfileStatus

pub record DeviceProfileListStruct (R : Type 0 → Type 0) (X : Foreign) : Type 0 where
  pub type_meta : TypeMeta
  pub list_meta : X.list_meta
  pub items : R (List (DeviceProfileStruct R X))

unfoldable pub copy_resource_properties_into : ResourceProperties → Alloc ResourceProperties
copy_resource_properties_into p = pure p

unfoldable pub copy_resource_properties : Ref ResourceProperties → Alloc (Ref ResourceProperties)
copy_resource_properties r = copy_object copy_resource_properties_into r

unfoldable pub copy_resource_into : DeviceResourceStruct Ref → Alloc (DeviceResourceStruct Ref)
copy_resource_into r = do
  attributes ← copy_object (copy_entries pure) r.attributes
  pure (record r { attributes = attributes })

unfoldable pub copy_resource :
    Ref (DeviceResourceStruct Ref) → Alloc (Ref (DeviceResourceStruct Ref))
copy_resource r = copy_object copy_resource_into r

unfoldable pub copy_operation_into :
    ResourceOperationStruct Ref → Alloc (ResourceOperationStruct Ref)
copy_operation_into o = do
  mappings ← copy_object (copy_entries pure) o.mappings
  pure (record o { mappings = mappings })

unfoldable pub copy_operation :
    Ref (ResourceOperationStruct Ref) → Alloc (Ref (ResourceOperationStruct Ref))
copy_operation r = copy_object copy_operation_into r

unfoldable pub copy_command_into : DeviceCommandStruct Ref → Alloc (DeviceCommandStruct Ref)
copy_command_into c = do
  operations ← copy_object (copy_elements copy_operation_into) c.resource_operations
  pure (record c { resource_operations = operations })

unfoldable pub copy_command : Ref (DeviceCommandStruct Ref) → Alloc (Ref (DeviceCommandStruct Ref))
copy_command r = copy_object copy_command_into r

unfoldable pub copy_profile_spec_into :
    DeviceProfileSpecStruct Ref → Alloc (DeviceProfileSpecStruct Ref)
copy_profile_spec_into s = do
  labels ← clone s.labels
  resources ← copy_object (copy_elements copy_resource_into) s.device_resources
  commands ← copy_object (copy_elements copy_command_into) s.device_commands
  pure (record s { labels = labels; device_resources = resources; device_commands = commands })

unfoldable pub copy_profile_spec :
    Ref (DeviceProfileSpecStruct Ref) → Alloc (Ref (DeviceProfileSpecStruct Ref))
copy_profile_spec r = copy_object copy_profile_spec_into r

unfoldable pub copy_profile_status_into : DeviceProfileStatus → Alloc DeviceProfileStatus
copy_profile_status_into s = pure s

unfoldable pub copy_profile_status : Ref DeviceProfileStatus → Alloc (Ref DeviceProfileStatus)
copy_profile_status r = copy_object copy_profile_status_into r

module _ {X Y : Foreign} (lib : Machinery X Y) where
  unfoldable pub copy_profile_into : DeviceProfileStruct Ref X → Alloc (DeviceProfileStruct Ref X)
  copy_profile_into dp = do
    meta ← lib.copy_object_meta dp.object_meta
    spec ← copy_profile_spec_into dp.spec
    pure (record dp { object_meta = meta; spec = spec })

  unfoldable pub copy_profile :
      Ref (DeviceProfileStruct Ref X) → Alloc (Ref (DeviceProfileStruct Ref X))
  copy_profile r = copy_object copy_profile_into r

  unfoldable pub copy_profile_list_into :
      DeviceProfileListStruct Ref X → Alloc (DeviceProfileListStruct Ref X)
  copy_profile_list_into l = do
    meta ← lib.copy_list_meta l.list_meta
    items ← copy_object (copy_elements copy_profile_into) l.items
    pure (record l { list_meta = meta; items = items })

  unfoldable pub copy_profile_list :
      Ref (DeviceProfileListStruct Ref X) → Alloc (Ref (DeviceProfileListStruct Ref X))
  copy_profile_list r = copy_object copy_profile_list_into r
