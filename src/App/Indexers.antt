-- ===== src/App/Indexers.antt =====
-- `RegisterFieldIndexers` (pkg/controllers/util/fieldindexer.go). The registration itself is a
-- parameter; `registerOnce` is a flag.
use yurt_device_controller.Prelude.{String, Bool, true, false, Option, none, some, List, [], ◌∷◌}
use yurt_device_controller.Prelude.Io.{Error, value, error, Call}
use yurt_device_controller.Api.{Device, DeviceService, DeviceProfile}

abbrev pub indexer_path_for_nodepool : String
indexer_path_for_nodepool = "spec.nodePool"

-- The functions that give the index of an object.
unfoldable pub device_index : Device → List String
device_index d = d.spec.node_pool ∷ []

unfoldable pub device_service_index : DeviceService → List String
device_service_index d = d.spec.node_pool ∷ []

unfoldable pub device_profile_index : DeviceProfile → List String
device_profile_index d = d.spec.node_pool ∷ []

-- What `IndexField` is called for: a type with its index function.
pub data Index : Type 0 where
  devices : (Device → List String) → Index
  device_services : (DeviceService → List String) → Index
  device_profiles : (DeviceProfile → List String) → Index

module _ {W : Type 0} (index_field : Index → String → Call W (Unit {0})) where
  -- The calls one after another, until one fails.
  unfoldable pub index_all : List Index → W → Option Error × W
  index_all [] w = (none, w)
  index_all (i ∷ is) w =
      let (r, w') = index_field i indexer_path_for_nodepool w in
      let rest = index_all is w' in elim r [ error e ↦ (some e, w') | value _ ↦ rest ]

  -- The error, the flag and the world after the call. Once the flag is set, a call does nothing and
  -- has no error, whatever the first call came to.
  unfoldable pub register_field_indexers : Bool → W → Option Error × Bool × W
  unfolding index_all device_index device_service_index device_profile_index
  register_field_indexers true w = (none, true, w)
  register_field_indexers false w =
      let (e, w') =
        index_all
          (devices device_index
            ∷ device_services device_service_index
            ∷ device_profiles device_profile_index
            ∷ [])
          w in
      (e, true, w')
