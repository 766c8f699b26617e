-- ===== src/Controllers/DeviceSyncer/Loop.antt =====
-- The loop of the synchronization of devices outlives every error, and recovers.
use yurt_device_controller.Prelude.{
  ℕ, suc, ◌≡◌, ◌≢◌, arith, String, true, Option, is_some, List, [],
}
use yurt_device_controller.Prelude.Io.{ok, panic, value}
use yurt_device_controller.Api.{Device}
use yurt_device_controller.EdgeX.Names.{GoText}
use yurt_device_controller.Controllers.Loops.{repeat_last}
use yurt_device_controller.Controllers.Differences.Rounds.{Steady, IsCreatable, kube_names, wanted}
use yurt_device_controller.Controllers.Differences.Lists.{AllItems}
use yurt_device_controller.Controllers.DeviceSyncer.{
  DeviceSyncer, complete_create_content, actual_name, by_name, run, sync_round, get_all_devices,
}
use yurt_device_controller.Controllers.DeviceSyncer.Convergence.{
  IsTranslated, IsSame, kube_name, device_round_converges,
}

module _ {W : Type 0} (ds : DeviceSyncer W) where
  sync_round_returns : (w : W) → (ds.device_cli.list w).0 ≢ panic → (sync_round ds w).0 ≡ ok tt
  unfolding sync_round get_all_devices
  sync_round_returns w calm = ground (arith, calm)

  -- Where the list of the devices on the edge platform never panics, no error of a list, a creation, a
  -- deletion or an update ends the loop. After any number of rounds, whatever failed in them, a round
  -- that can list both platforms, over a cluster that is steady, then has what it lists and has no two
  -- resources for one name on the edge platform, leaves a resource for a name exactly if the edge
  -- platform has a device of that name, or the cluster had one that is not synced, provided that the
  -- resources to be made get names in Kubernetes that are free, valid and different. Reading
  -- properties changes nothing in the cluster, and the devices of the edge platform can be translated.
  pub loop_recovers :
      (stands : W → String → Option String) (steady : Steady ds.client actual_name kube_name stands)
      → ((d : Device) (w : W)
          → IsSame ds stands steady w (ds.device_cli.list_properties_state d w).1)
      → ((w : W) → (ds.device_cli.list w).0 ≢ panic)
      → (go : GoText) (edge kube : List Device) (n : ℕ) (w w₁ w₂ : W)
      → AllItems (IsTranslated go) edge
      → ds.device_cli.list (run ds n w).1 ≡ (ok edge, w₁)
      → ds.client.list ds.node_pool ds.namespace w₁ ≡ (value kube, w₂)
      → IsCreatable
          (λ d. kube_name (complete_create_content ds d))
          (steady.refuses w₂)
          (by_name [] edge)
          (by_name [] kube)
      → steady.single w₂ ≡ true
      → ((k : String) → stands w₂ k ≡ kube_names kube_name (by_name [] kube) k)
      → (w₃ : W) × (run ds (suc n) w ≡ (ok tt, w₃))
        × ((k : String)
            → is_some (stands w₃ k)
              ≡ wanted (λ d. d.status.synced) (by_name [] edge) (by_name [] kube) k)
  unfolding run
  loop_recovers stands steady quiet calm go edge kube n w w₁ w₂ made listed listed' creatable single
        seen =
      let (w₃, returns, names) =
        device_round_converges ds stands steady quiet go edge kube (run ds n w).1 w₁ w₂ made listed
          listed' creatable single seen in
      (w₃, repeat_last (sync_round ds) n w w₃ (λ v. sync_round_returns v (calm v)) returns, names)
