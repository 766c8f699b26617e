-- ===== src/EdgeX/DeviceClient/Locations.antt =====
-- Which devices of the edge platform the client can translate.
use yurt_device_controller.Prelude.{
  ◌≡◌, ◌⊎◌, inl, inr, refl, arith, Bool, true, false, List, [], ◌∷◌,
}
use yurt_device_controller.Prelude.Io.{ok, panic}
use yurt_device_controller.Api.{Device}
use yurt_device_controller.EdgeX.Dto.{EdgeXDevice, Any, nil, other, text, stringer, int, float64}
use yurt_device_controller.EdgeX.Names.{GoText}
use yurt_device_controller.EdgeX.Devices.{to_kube_device}
use yurt_device_controller.EdgeX.DeviceClient.Client.{map_outcome}
use yurt_device_controller.Controllers.Session.{any}

-- A location that is there and is no text.
abbrev pub has_odd_location : EdgeXDevice → Bool
has_odd_location ed = elim (ed.location) [ nil ↦ false | text s ↦ false | _ ↦ true ]

module _ (go : GoText) where
  pub to_kube_device-panic :
      (ed : EdgeXDevice)
      → ((to_kube_device go ed ≡ panic) × (has_odd_location ed ≡ true))
        ⊎ ((d : Device) × (to_kube_device go ed ≡ ok d) × (has_odd_location ed ≡ false))
  unfolding to_kube_device
  to_kube_device-panic ed = at ed.location
    where
      at :
          (loc : Any)
          → let ed' : EdgeXDevice = record ed { location = loc } in
            ((to_kube_device go ed' ≡ panic) × (has_odd_location ed' ≡ true))
            ⊎ ((d : Device) × (to_kube_device go ed' ≡ ok d) × (has_odd_location ed' ≡ false))
      at nil = inr (_, refl, refl)
      at (text s) = inr (_, refl, refl)
      at other = inl (refl, refl)
      at (stringer s) = inl (refl, refl)
      at (int n) = inl (refl, refl)
      at (float64 n) = inl (refl, refl)

  pub map_outcome-panic :
      (eds : List EdgeXDevice)
      → ((map_outcome (to_kube_device go) eds ≡ panic) × (any has_odd_location eds ≡ true))
        ⊎ ((ds : List Device) × (map_outcome (to_kube_device go) eds ≡ ok ds)
            × (any has_odd_location eds ≡ false))
  unfolding map_outcome
  map_outcome-panic [] = inr ([], refl, refl)
  map_outcome-panic (ed ∷ eds) = elim (to_kube_device-panic ed) [
    | inl (e, odd) ↦ inl (ground arith, ground arith)
    | inr (d, e, plain) ↦ elim (map_outcome-panic eds) [
      | inl (f, odd) ↦ inl (ground arith, ground arith)
      | inr (ds, f, plain') ↦ inr (d ∷ ds, ground arith, ground arith)
    ]
  ]
