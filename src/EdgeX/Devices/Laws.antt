-- ===== src/EdgeX/Devices/Laws.antt =====
-- What a device keeps on its way from the edge platform to the cluster and back.
use yurt_device_controller.Prelude.{String, ◌≡◌, ◌⊎◌, inl, inr, arith, ◌∙◌, []}
use yurt_device_controller.Prelude.Dict.{Dict, NodupKeys, fill, fill-eq-map_values, map_values_id}
use yurt_device_controller.Prelude.Io.{ok}
use yurt_device_controller.Api.{Device}
use yurt_device_controller.EdgeX.Dto.{text, EdgeXDevice}
use yurt_device_controller.EdgeX.Names.{GoText, get_edgex_name}
use yurt_device_controller.EdgeX.Devices.{
  kube_device, to_kube_device, to_edgex_device, to_edgex_admin_state, to_edgex_operating_state,
  to_edgex_protocols, to_kube_protocols,
}

abbrev pub IsAdminState : String → Type 0
IsAdminState s = (s ≡ "LOCKED") ⊎ (s ≡ "UNLOCKED")

abbrev pub IsOperatingState : String → Type 0
IsOperatingState s = (s ≡ "UP") ⊎ (s ≡ "DOWN") ⊎ (s ≡ "UNKNOWN")

pub admin_state_kept : (s : String) → IsAdminState s → to_edgex_admin_state s ≡ s
unfolding to_edgex_admin_state
admin_state_kept s (inl e) = rw e
admin_state_kept s (inr e) = rw e

pub operating_state_kept : (s : String) → IsOperatingState s → to_edgex_operating_state s ≡ s
unfolding to_edgex_operating_state
operating_state_kept s (inl e) = rw e
operating_state_kept s (inr (inl e)) = rw e
operating_state_kept s (inr (inr e)) = rw e

protocols_kept :
    (d : Dict (Dict String)) → NodupKeys d → to_edgex_protocols (to_kube_protocols d) ≡ d
unfolding to_edgex_protocols to_kube_protocols
protocols_kept d h = rw (filled d h) (filled d h)
  where
    filled : (e : Dict (Dict String)) → NodupKeys e → fill (λ v. v) [] e ≡ e
    filled e n = fill-eq-map_values (λ v. v) e n ∙ map_values_id e

-- A device of the edge platform whose location is a text, whose states are among those that the
-- platform knows and whose protocols have different names becomes a resource under its edge name,
-- and translated back it has every field that it had but three: its automatic events are lost, and
-- so are the times at which the platform made and changed it.
pub to_edgex_device-to_kube_device :
    (go : GoText) (ed : EdgeXDevice) (loc : String)
    → ed.location ≡ text loc
    → IsAdminState ed.admin_state
    → IsOperatingState ed.operating_state
    → NodupKeys ed.protocols
    → (d : Device) × (to_kube_device go ed ≡ ok d)
      × (to_edgex_device d ≡ record ed { auto_events = []; created = 0; modified = 0 })
unfolding to_kube_device to_edgex_device get_edgex_name
to_edgex_device-to_kube_device go ed loc located admin operating distinct = (
  kube_device go ed loc,
  rw (located, to_kube_device),
  ground (
    arith,
    admin_state_kept ed.admin_state admin,
    operating_state_kept ed.operating_state operating,
    protocols_kept ed.protocols distinct,
  ),
)
