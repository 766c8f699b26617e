-- ===== src/Clients/Interface.antt =====
-- pkg/clients/interface.go. The context and the options carry nothing; `W` is the state of the
-- world outside, the edge platform included. A pointer that may come back nil is an option.
use yurt_device_controller.Prelude.{String, Option, List}
use yurt_device_controller.Prelude.Dict.{Dict}
use yurt_device_controller.Prelude.Io.{Error, Io}
use yurt_device_controller.Api.{
  Device, DeviceService, DeviceProfile, DesiredPropertyState, ActualPropertyState,
}

pub record DeviceInterface (W : Type 0) : Type 0 where
  pub create : Device → Io W Device
  pub delete : String → Io W (Unit {0})
  pub update : Device → Io W (Option Device)
  pub get : String → Io W Device
  pub list : Io W (List Device)
  -- the state and the error come back together: a state may come with an error
  pub get_property_state : String → Device → Io W (Option ActualPropertyState × Option Error)
  pub update_property_state : String → Device → Io W (Unit {0})
  pub list_properties_state :
      Device → W → (Dict DesiredPropertyState × Dict ActualPropertyState × Option Error) × W

pub record DeviceServiceInterface (W : Type 0) : Type 0 where
  pub create : DeviceService → Io W DeviceService
  pub delete : String → Io W (Unit {0})
  pub update : DeviceService → Io W (Option DeviceService)
  pub get : String → Io W DeviceService
  pub list : Io W (List DeviceService)

pub record DeviceProfileInterface (W : Type 0) : Type 0 where
  pub create : DeviceProfile → Io W DeviceProfile
  pub delete : String → Io W (Unit {0})
  pub update : DeviceProfile → Io W (Option DeviceProfile)
  pub get : String → Io W DeviceProfile
  pub list : Io W (List DeviceProfile)
