-- ===== src/Api/DeepCopy/Machinery.antt =====
-- The structs of the Kubernetes and cluster libraries that the resources hold. Their copies are
-- code of those libraries, and what this file says of them is that they are deep.
use yurt_device_controller.Prelude.{ℕ, String, List}
use yurt_device_controller.Prelude.Memory.{Alloc, IsDeep}

pub record TypeMeta : Type 0 where
  pub kind : String
  pub api_version : String

-- The types of metav1.ObjectMeta, metav1.ListMeta and clusterv1.Condition.
pub record Foreign : Type 1 where
  pub object_meta : Type 0
  pub list_meta : Type 0
  pub condition : Type 0

-- Their functions `DeepCopyInto`, with what a value of them reads as, and the addresses it leads to.
pub record Machinery (X Y : Foreign) : Type 0 where
  pub copy_object_meta : X.object_meta → Alloc X.object_meta
  pub view_object_meta : X.object_meta → Y.object_meta
  pub object_meta_addresses : X.object_meta → List ℕ
  pub copy_list_meta : X.list_meta → Alloc X.list_meta
  pub view_list_meta : X.list_meta → Y.list_meta
  pub list_meta_addresses : X.list_meta → List ℕ
  pub copy_condition : X.condition → Alloc X.condition
  pub view_condition : X.condition → Y.condition
  pub condition_addresses : X.condition → List ℕ

pub record IsCopying {X Y : Foreign} (lib : Machinery X Y) : Type 0 where
  pub object_metas : IsDeep lib.copy_object_meta lib.view_object_meta lib.object_meta_addresses
  pub list_metas : IsDeep lib.copy_list_meta lib.view_list_meta lib.list_meta_addresses
  pub conditions : IsDeep lib.copy_condition lib.view_condition lib.condition_addresses
