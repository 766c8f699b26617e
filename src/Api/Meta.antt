-- ===== src/Api/Meta.antt =====
-- Object metadata and conditions, as the resource definitions under config/crd/bases name them.
use yurt_device_controller.Prelude.{ℕ, String, Bool, Option, List, is_some, not}
use yurt_device_controller.Prelude.Dict.{Dict}

-- A nil label map answers every lookup as an empty one does, and the code only looks labels up.
pub record ObjectMeta : Type 0 where
  pub name : String
  pub namespace : String
  pub labels : Dict String
  pub finalizers : List String
  -- `none` is the nil or zero time
  pub deletion_timestamp : Option ℕ
  pub resource_version : String

-- `DeletionTimestamp.IsZero()`
abbrev pub is_zero : Option ℕ → Bool
is_zero t = not (is_some t)

-- A condition of clusterv1.Conditions, less the time of its last transition.
pub record Condition : Type 0 where
  pub kind : String
  pub status : String
  pub severity : String
  pub reason : String
  pub message : String

abbrev pub Conditions : Type 0
Conditions = List Condition

-- Times in milliseconds are the 64-bit patterns of the source's int64; they are only copied.
abbrev pub Millis : Type 0
Millis = ℕ
