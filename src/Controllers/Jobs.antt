-- ===== src/Controllers/Jobs.antt =====
-- The work of the program in the order in which it comes: requests that the reconcilers
-- (pkg/controllers/device_controller.go, deviceservice_controller.go, deviceprofile_controller.go)
-- are given, and rounds of the syncers (device_syncer.go, deviceservice_syncer.go,
-- deviceprofile_syncer.go), over the clients of EdgeX.
use yurt_device_controller.Prelude.{String, ◌≡◌, refl, List, [], ◌∷◌}
use yurt_device_controller.Prelude.Io.{Io, ok, pure, ◌>>◌}
use yurt_device_controller.Prelude.Safe.{Returns, dropped, Returns-dropped, Returns-then}
use yurt_device_controller.EdgeX.Http.{HasEntries}
use yurt_device_controller.EdgeX.DeviceClient.{device_interface}
use yurt_device_controller.EdgeX.DeviceClient.Client.{EdgexDeviceClient}
use yurt_device_controller.EdgeX.DeviceClient.Safe.{HasLocations}
use yurt_device_controller.EdgeX.ServiceClient.{EdgexDeviceServiceClient, service_interface}
use yurt_device_controller.EdgeX.ProfileClient.{EdgexDeviceProfile, profile_interface}
use yurt_device_controller.Controllers.Devices.Reconciler.{DeviceReconciler}
use yurt_device_controller.Controllers.Devices.Reconcile as Devices
use yurt_device_controller.Controllers.Devices.Safe as DeviceSafe
use yurt_device_controller.Controllers.Devices.Ends as DeviceEnds
use yurt_device_controller.Controllers.DeviceSyncer as DeviceSyncer
use yurt_device_controller.Controllers.DeviceServices.Lifecycle.{DeviceServiceReconciler}
use yurt_device_controller.Controllers.DeviceServices.Reconcile as Services
use yurt_device_controller.Controllers.DeviceServices.Safe as ServiceSafe
use yurt_device_controller.Controllers.DeviceServiceSyncer as ServiceSyncer
use yurt_device_controller.Controllers.DeviceProfiles.Reconcile as Profiles
use yurt_device_controller.Controllers.DeviceProfiles.Safe as ProfileSafe
use yurt_device_controller.Controllers.DeviceProfileSyncer as ProfileSyncer

pub data Job : Type 0 where
  device_request service_request profile_request : String → Job
  device_round service_round profile_round : Job

-- The clients of EdgeX, the reconcilers and the syncers; whatever clients of the edge platform
-- the latter are given, they are used with those of EdgeX.
pub record Parts (W : Type 0) : Type 0 where
  pub devices : EdgexDeviceClient W
  pub services : EdgexDeviceServiceClient W
  pub profiles : EdgexDeviceProfile W
  pub device_reconciler : DeviceReconciler W
  pub service_reconciler : DeviceServiceReconciler W
  pub profile_reconciler : Profiles.DeviceProfileReconciler W
  pub device_syncer : DeviceSyncer.DeviceSyncer W
  pub service_syncer : ServiceSyncer.DeviceServiceSyncer W
  pub profile_syncer : ProfileSyncer.DeviceProfileSyncer W

module _ {W : Type 0} (p : Parts W) where
  abbrev pub devices_over_edgex : DeviceReconciler W
  devices_over_edgex = record (p.device_reconciler) { device_cli = device_interface p.devices }

  abbrev pub services_over_edgex : DeviceServiceReconciler W
  services_over_edgex = ServiceSafe.over_edgex p.service_reconciler p.services

  abbrev pub profiles_over_edgex : Profiles.DeviceProfileReconciler W
  profiles_over_edgex = ProfileSafe.over_edgex p.profile_reconciler p.profiles

  -- One job; the error of a request goes back to its queue.
  unfoldable pub work : Job → Io W (Unit {0})
  work (device_request name) = dropped (Devices.reconcile devices_over_edgex name)
  work (service_request name) = dropped (Services.reconcile services_over_edgex name)
  work (profile_request name) = dropped (Profiles.reconcile profiles_over_edgex name)
  work device_round =
      DeviceSyncer.sync_round (record (p.device_syncer) { device_cli = device_interface p.devices })
  work service_round =
      ServiceSyncer.sync_round
        (record (p.service_syncer) { device_service_cli = service_interface p.services })
  work profile_round =
      ProfileSyncer.sync_round
        (record (p.profile_syncer) { edge_client = profile_interface p.profiles })

  unfoldable pub work_all : List Job → Io W (Unit {0})
  work_all [] = pure tt
  work_all (j ∷ js) = work j >> work_all js

  -- What the rest of the world has to keep to: in the answers that the services of EdgeX give, the
  -- entries for a creation are no list of one nil pointer, and the locations of devices are absent or
  -- texts; and the devices of the cluster desire only properties that can be read.
  pub record IsSane : Type 0 where
    pub device_entries : HasEntries p.devices.http p.devices.codec
    pub service_entries : HasEntries p.services.http p.services.codec
    pub profile_entries : HasEntries p.profiles.http p.profiles.codec
    pub locations : HasLocations p.devices
    pub readable : DeviceSafe.HoldsReadable devices_over_edgex

  module _ (sane : IsSane) where
    work-Returns : (j : Job) → Returns (work j)
    unfolding work
    work-Returns (device_request name) =
        Returns-dropped (Devices.reconcile devices_over_edgex name) (
          DeviceEnds.reconcile_never_panics devices_over_edgex
            (DeviceEnds.edgex_client-IsLive p.devices sane.device_entries sane.locations
              p.device_reconciler)
            sane.readable name)
    work-Returns (service_request name) =
        Returns-dropped (Services.reconcile services_over_edgex name)
          (ServiceSafe.reconcile-Safe p.service_reconciler p.services sane.service_entries name)
    work-Returns (profile_request name) =
        Returns-dropped (Profiles.reconcile profiles_over_edgex name)
          (ProfileSafe.reconcile-Safe p.profile_reconciler p.profiles sane.profile_entries name)
    work-Returns device_round =
        DeviceEnds.sync_round-Returns p.devices sane.device_entries sane.locations p.device_syncer
    work-Returns service_round = ServiceSafe.sync_round-Returns p.service_syncer p.services
    work-Returns profile_round = ProfileSafe.sync_round-Returns p.profile_syncer p.profiles

    -- Over any HTTP library, codec and cluster where three conditions hold (in no answer that the
    -- services of EdgeX give to a creation, the list of entries is one nil pointer; in none that they
    -- give to a search or a list, the location of a device is anything but absent or a text; and
    -- each read of a property that a device of the cluster desires gives a state or an error other
    -- than "not found", in every state of the world): requests for devices, device services and device profiles and rounds of the
    -- three syncers, in any number and order, are all worked off: none panics, and the errors that
    -- the calls give do not keep the next from being worked off.
    pub all_jobs_end : (js : List Job) (w : W) → (work_all js w).0 ≡ ok tt
    unfolding work_all
    all_jobs_end [] w = refl
    all_jobs_end (j ∷ js) w =
        Returns-then (work j) (work_all js) (work-Returns j) (all_jobs_end js) w
