-- ===== src/Controllers/DeviceSyncer/Locations.antt =====
-- When a round of the synchronization of devices panics.
use yurt_device_controller.Prelude.{◌≡◌, arith, List, if◌then◌else◌}
use yurt_device_controller.Prelude.Io.{ok, panic, value}
use yurt_device_controller.EdgeX.Dto.{EdgeXDevice}
use yurt_device_controller.EdgeX.Http.{Response, get_method}
use yurt_device_controller.EdgeX.DeviceClient.{device_interface}
use yurt_device_controller.EdgeX.DeviceClient.Locations.{has_odd_location, map_outcome-panic}
use yurt_device_controller.EdgeX.DeviceClient.Client.{EdgexDeviceClient, list, meta_url}
use yurt_device_controller.Controllers.Session.{any}
use yurt_device_controller.Controllers.DeviceSyncer.{DeviceSyncer, sync_round, get_all_devices}

module _ {W : Type 0} (ds : DeviceSyncer W) (efc : EdgexDeviceClient W) where
  -- Where the edge platform answers with its devices, the round panics exactly if one of them has a
  -- location that is there and is no text, such as a pair of coordinates. Otherwise it returns.
  pub odd_location_panics :
      (w w' : W) (resp : Response) (eds : List EdgeXDevice)
      → efc.http.send get_method (meta_url efc "/all?limit=-1") "" w ≡ (value resp, w')
      → efc.codec.decode_devices resp.body ≡ value eds
      → (sync_round (record ds { device_cli = device_interface efc }) w).0
        ≡ (if any has_odd_location eds then panic else ok tt)
  unfolding sync_round get_all_devices list
  odd_location_panics w w' resp eds answered decoded = ground (arith, map_outcome-panic efc.go eds)
