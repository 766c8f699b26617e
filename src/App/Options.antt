-- ===== src/App/Options.antt =====
-- cmd/yurt-device-controller/options/options.go. `net.SplitHostPort` is a parameter, of which only
-- the error matters.
pub mod Laws
use yurt_device_controller.Prelude.{
  ℕ, ◌*◌, ◌%◌, ◌^◌, String, ◌<>◌, Bool, false, Option, none, some, List, [], ◌∷◌, ◌==◌,
  if◌then◌else◌,
}
use yurt_device_controller.Prelude.Io.{Error, new_error}

pub record YurtDeviceControllerOptions : Type 0 where
  pub metrics_addr : String
  pub probe_addr : String
  pub enable_leader_election : Bool
  pub nodepool : String
  pub namespace : String
  pub core_data_addr : String
  pub core_metadata_addr : String
  pub core_command_addr : String
  -- a uint, below 2 ^ 64
  pub edge_sync_period : ℕ

abbrev pub new_options : YurtDeviceControllerOptions
new_options = record {
  metrics_addr = ":8080";
  probe_addr = ":8080";
  enable_leader_election = false;
  nodepool = "";
  namespace = "default";
  core_data_addr = "edgex-core-data:59880";
  core_metadata_addr = "edgex-core-metadata:59881";
  core_command_addr = "edgex-core-command:59882";
  edge_sync_period = 5;
}

-- What `AddFlags` leaves in the options: to bind a flag sets its variable to the flag's default.
unfoldable pub add_flags : YurtDeviceControllerOptions → YurtDeviceControllerOptions
add_flags o = record o {
  probe_addr = ":8081";
  enable_leader_election = false;
  nodepool = "";
  namespace = "default";
  core_data_addr = "edgex-core-data:59880";
  core_metadata_addr = "edgex-core-metadata:59881";
  core_command_addr = "edgex-core-command:59882";
  edge_sync_period = 5;
}

module _ (split_host_port : String → Option Error) where
  -- The loop over the addresses: `none` is a nil error.
  unfoldable pub validate_addresses : List String → Option Error
  validate_addresses [] = none
  validate_addresses (addr ∷ addrs) =
      let rest = validate_addresses addrs in
      if addr == "" then rest else elim (split_host_port addr) [
        | some e ↦ some (new_error ("invalid address: " <> e.message))
        | none ↦ rest
      ]

  unfoldable pub validate_edge_platform_address : YurtDeviceControllerOptions → Option Error
  unfolding validate_addresses
  validate_edge_platform_address o =
      validate_addresses (o.core_data_addr ∷ o.core_metadata_addr ∷ o.core_command_addr ∷ [])

  unfoldable pub validate_options : YurtDeviceControllerOptions → Option Error
  unfolding validate_edge_platform_address
  validate_options o = elim (validate_edge_platform_address o) [ some e ↦ some e | none ↦ none ]

-- `time.Duration(period) * time.Second`: the bits of an int64 that counts nanoseconds.
unfoldable pub sync_duration : ℕ → ℕ
sync_duration period = period * 1000000000 % 2 ^ 64
