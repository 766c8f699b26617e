-- ===== src/App/Components.antt =====
-- What `Run` puts together: the constructors of the clients of the edge platform (`NewEdgex…`), of the
-- syncers (`NewDeviceSyncer`, `NewDeviceServiceSyncer`, `NewDeviceProfileSyncer`), and the controllers
-- as their `SetupWithManager` fills them in.
use yurt_device_controller.Prelude.{String, Bool, Option}
use yurt_device_controller.Api.{Device, DeviceService, DeviceProfile, EdgeXObject}
use yurt_device_controller.EdgeX.Names.{GoText}
use yurt_device_controller.EdgeX.Http.{Http, Codec}
use yurt_device_controller.EdgeX.DeviceClient.{device_interface}
use yurt_device_controller.EdgeX.DeviceClient.Client.{EdgexDeviceClient}
use yurt_device_controller.EdgeX.ServiceClient.{EdgexDeviceServiceClient, service_interface}
use yurt_device_controller.EdgeX.ProfileClient.{EdgexDeviceProfile, profile_interface}
use yurt_device_controller.Controllers.Kube.{KubeClient, ConditionsUtil}
use yurt_device_controller.Controllers.Devices.Reconciler.{DeviceReconciler}
use yurt_device_controller.Controllers.Devices.Setup.{setup_with_manager}
use yurt_device_controller.Controllers.DeviceServices.Lifecycle.{DeviceServiceReconciler}
use yurt_device_controller.Controllers.DeviceServices.Setup.{setup_services}
use yurt_device_controller.Controllers.DeviceProfiles.Reconcile.{DeviceProfileReconciler}
use yurt_device_controller.Controllers.DeviceProfiles.Setup.{setup_profiles}
use yurt_device_controller.Controllers.DeviceSyncer.{DeviceSyncer}
use yurt_device_controller.Controllers.DeviceServiceSyncer.{DeviceServiceSyncer}
use yurt_device_controller.Controllers.DeviceProfileSyncer.{DeviceProfileSyncer}
use yurt_device_controller.App.Options.{YurtDeviceControllerOptions, sync_duration}

-- What a running controller is given from outside: the client of Kubernetes (`mgr.GetClient()`), the
-- helpers for conditions, HTTP, JSON and texts.
pub record Outside (W : Type 0) : Type 0 where
  pub devices : KubeClient W Device
  pub device_services : KubeClient W DeviceService
  pub device_profiles : KubeClient W DeviceProfile
  pub conditions : ConditionsUtil
  pub http : Http W
  pub codec : Codec
  pub go : GoText

-- The parts that the manager runs.
pub data Component (W : Type 0) : Type 0 where
  device_controller : DeviceReconciler W → Component W
  device_service_controller : DeviceServiceReconciler W → Component W
  device_profile_controller : DeviceProfileReconciler W → Component W
  device_syncer : DeviceSyncer W → Component W
  device_service_syncer : DeviceServiceSyncer W → Component W
  device_profile_syncer : DeviceProfileSyncer W → Component W

-- The filter on update events that a controller is built with.
abbrev pub UpdateFilter : Type 0
UpdateFilter = Option EdgeXObject → Option EdgeXObject → Bool

module _ {W : Type 0} (outside : Outside W) where
  -- `NewEdgexDeviceClient`, `NewEdgexDeviceServiceClient`, `NewEdgexDeviceProfile`
  unfoldable pub new_edgex_device_client : String → String → EdgexDeviceClient W
  new_edgex_device_client core_meta_addr core_command_addr = record {
    http = outside.http;
    codec = outside.codec;
    go = outside.go;
    core_meta_addr = core_meta_addr;
    core_command_addr = core_command_addr;
  }

  unfoldable pub new_edgex_device_service_client : String → EdgexDeviceServiceClient W
  new_edgex_device_service_client core_meta_addr = record {
    http = outside.http;
    codec = outside.codec;
    go = outside.go;
    core_meta_addr = core_meta_addr;
  }

  unfoldable pub new_edgex_device_profile : String → EdgexDeviceProfile W
  new_edgex_device_profile core_meta_addr = record {
    http = outside.http;
    codec = outside.codec;
    go = outside.go;
    core_meta_addr = core_meta_addr;
  }

  module _ (opts : YurtDeviceControllerOptions) where
    unfoldable pub new_device_syncer : DeviceSyncer W
    unfolding new_edgex_device_client
    new_device_syncer = record {
      client = outside.devices;
      node_pool = opts.nodepool;
      device_cli =
          device_interface (new_edgex_device_client opts.core_metadata_addr opts.core_command_addr);
      sync_period = sync_duration opts.edge_sync_period;
      namespace = opts.namespace;
    }

    unfoldable pub new_device_service_syncer : DeviceServiceSyncer W
    unfolding new_edgex_device_service_client
    new_device_service_syncer = record {
      client = outside.device_services;
      device_service_cli =
          service_interface (new_edgex_device_service_client opts.core_metadata_addr);
      node_pool = opts.nodepool;
      sync_period = sync_duration opts.edge_sync_period;
      namespace = opts.namespace;
    }

    unfoldable pub new_device_profile_syncer : DeviceProfileSyncer W
    unfolding new_edgex_device_profile
    new_device_profile_syncer = record {
      client = outside.device_profiles;
      sync_period = sync_duration opts.edge_sync_period;
      node_pool = opts.nodepool;
      edge_client = profile_interface (new_edgex_device_profile opts.core_metadata_addr);
      namespace = opts.namespace;
    }

    -- The controllers, as they are completed.
    unfoldable pub new_device_reconciler : DeviceReconciler W
    unfolding new_edgex_device_client
    new_device_reconciler =
        setup_with_manager (new_edgex_device_client opts.core_metadata_addr opts.core_command_addr)
          outside.devices outside.conditions opts.nodepool

    unfoldable pub new_device_service_reconciler : DeviceServiceReconciler W
    unfolding new_edgex_device_service_client
    new_device_service_reconciler =
        setup_services (new_edgex_device_service_client opts.core_metadata_addr)
          outside.device_services outside.conditions opts.nodepool

    unfoldable pub new_device_profile_reconciler : DeviceProfileReconciler W
    unfolding new_edgex_device_profile
    new_device_profile_reconciler =
        setup_profiles (new_edgex_device_profile opts.core_metadata_addr) outside.device_profiles
          opts.nodepool
