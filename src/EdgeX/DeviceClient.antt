-- ===== src/EdgeX/DeviceClient.antt =====
-- pkg/clients/edgex-foundry/device_client.go: `EdgexDeviceClient`, which implements
-- `DeviceInterface` by HTTP requests to the core-metadata and core-command services.
pub mod Locations
pub mod Safe
pub mod Client
pub mod Readings
pub mod Properties
use yurt_device_controller.Clients.Interface.{DeviceInterface}
use Client.{EdgexDeviceClient, create, delete, update, get, list}
use Properties.{get_property_state, update_property_state, list_properties_state}

module _ {W : Type 0} (efc : EdgexDeviceClient W) where
  -- The client as the controllers see it.
  abbrev pub device_interface : DeviceInterface W
  device_interface = record {
    create = create efc;
    delete = delete efc;
    update = update efc;
    get = get efc;
    list = list efc;
    get_property_state = get_property_state efc;
    update_property_state = update_property_state efc;
    list_properties_state = list_properties_state efc;
  }
