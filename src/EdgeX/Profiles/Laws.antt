-- ===== src/EdgeX/Profiles/Laws.antt =====
-- What a device profile keeps on its way from the cluster to the edge platform and back.
use yurt_device_controller.Prelude.{◌≡◌, refl, ap, ◌∙◌, false, List, [], ◌∷◌, arith, map, String}
use yurt_device_controller.Prelude.Dict.{
  Dict, insert, NodupKeys, fill, map_values, fill-eq-map_values, map_values_id,
}
use yurt_device_controller.Api.{
  DeviceProfile, DeviceResource, DeviceCommand, ResourceOperation, DeviceProfileSpec,
}
use yurt_device_controller.EdgeX.Dto.{text}
use yurt_device_controller.EdgeX.Names.{GoText}
use yurt_device_controller.EdgeX.Profiles.{
  concrete_attrs, to_kube_device_resource, to_edgex_device_resource, to_kube_resource_operations,
  to_edgex_resource_operations, to_kube_device_command, to_edgex_device_command,
  to_kube_device_resources, to_edgex_device_resource_slice, to_kube_device_profile,
  to_edgex_device_profile,
}

-- A resource without its hidden flag, and a profile's specification with what the translation
-- drops at its zero value.
abbrev pub shown : DeviceResource → DeviceResource
shown dr = record dr { is_hidden = false }

abbrev pub translated : DeviceProfileSpec → DeviceProfileSpec
translated spec = record spec {
  node_pool = "";
  device_resources = map shown (spec.device_resources);
}

-- No resource has two attributes of one name.
abbrev pub HasDistinctAttributes : List DeviceResource → Type 0
HasDistinctAttributes [] = Unit
HasDistinctAttributes (dr ∷ drs) = NodupKeys dr.attributes × HasDistinctAttributes drs

module _ (go : GoText) where
  concrete_attrs-map_values :
      (ret d : Dict String) → concrete_attrs go ret (map_values text d) ≡ fill (λ s. s) ret d
  unfolding concrete_attrs
  concrete_attrs-map_values ret [] = refl
  concrete_attrs-map_values ret ((k, s) ∷ d) = concrete_attrs-map_values (insert k s ret) d

  attributes_kept : (d : Dict String) → NodupKeys d → concrete_attrs go [] (fill text [] d) ≡ d
  attributes_kept d h =
      rw (fill-eq-map_values text d h, concrete_attrs-map_values)
        (fill-eq-map_values (λ s. s) d h ∙ map_values_id d)

  resource_kept :
      (dr : DeviceResource)
      → NodupKeys dr.attributes
      → to_kube_device_resource go (to_edgex_device_resource dr) ≡ shown dr
  unfolding to_kube_device_resource to_edgex_device_resource
  resource_kept dr h = ground (arith, attributes_kept dr.attributes h)

  resources_kept :
      (drs : List DeviceResource)
      → HasDistinctAttributes drs
      → to_kube_device_resources go (to_edgex_device_resource_slice drs) ≡ map shown drs
  unfolding to_kube_device_resources to_edgex_device_resource_slice
  resources_kept [] h = refl
  resources_kept (dr ∷ drs) h = cc (resource_kept dr h.0, resources_kept drs h.1)

  operations_kept :
      (ros : List ResourceOperation)
      → to_kube_resource_operations (to_edgex_resource_operations ros) ≡ ros
  unfolding to_kube_resource_operations to_edgex_resource_operations
  operations_kept [] = refl
  operations_kept (ro ∷ ros) = ap (λ l. ro ∷ l) (operations_kept ros)

  commands_kept :
      (dcs : List DeviceCommand) → to_kube_device_command (to_edgex_device_command dcs) ≡ dcs
  unfolding to_kube_device_command to_edgex_device_command
  commands_kept [] = refl
  commands_kept (dc ∷ dcs) =
      ground (arith, operations_kept dc.resource_operations, commands_kept dcs)

  -- A profile's specification, none of whose resources has two attributes of one name, comes back
  -- from the edge platform's form as it was, except that its node pool is empty and that no
  -- resource is hidden any more.
  pub to_kube_device_profile-to_edgex_device_profile :
      (dp : DeviceProfile)
      → HasDistinctAttributes dp.spec.device_resources
      → (to_kube_device_profile go (to_edgex_device_profile dp)).spec ≡ translated dp.spec
  unfolding to_kube_device_profile to_edgex_device_profile
  to_kube_device_profile-to_edgex_device_profile dp h =
      ground
        (arith, resources_kept dp.spec.device_resources h, commands_kept dp.spec.device_commands)
