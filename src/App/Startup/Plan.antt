-- ===== src/App/Startup/Plan.antt =====
-- Which calls the start is to make, and in which order.
use yurt_device_controller.Prelude.{◌≡◌, ◌≢◌, ◌⊎◌, String, List, [], ◌∷◌, ◌++◌, Option, none}
use yurt_device_controller.Prelude.Io.{Io, Outcome, ok, call}
use yurt_device_controller.App.Options.{YurtDeviceControllerOptions}
use yurt_device_controller.App.NodePool.{Clientset, get_node_pool}
use yurt_device_controller.App.Indexers.{
  Index, devices, device_services, device_profiles, device_index, device_service_index,
  device_profile_index,
}
use yurt_device_controller.App.Components.{
  Outside, Component, UpdateFilter, device_controller, device_service_controller,
  device_profile_controller, device_syncer, device_service_syncer, device_profile_syncer,
  new_device_syncer, new_device_service_syncer, new_device_profile_syncer, new_device_reconciler,
  new_device_service_reconciler, new_device_profile_reconciler,
}
use yurt_device_controller.App.Startup.{Manager, preflight_check, chosen, filtered}

-- The calls of the start.
pub data Action (W : Type 0) : Type 0 where
  load_config : Action W
  make_manager : YurtDeviceControllerOptions → Action W
  check_namespace : String → Action W
  index_objects : Index → String → Action W
  add_controller : Option UpdateFilter → Component W → Action W
  add_runnable : Component W → Action W
  add_health_check add_ready_check : String → Action W
  start_all : Action W

module _ {W : Type 0} (mgr : Manager W) (cs : Clientset W) where
  -- What an action does to the world.
  unfoldable pub perform : Action W → Io W (Unit {0})
  perform load_config = call mgr.get_config
  perform (make_manager opts) = call (mgr.new_manager opts)
  perform (check_namespace namespace) = preflight_check cs namespace
  perform (index_objects i path) = call (mgr.index_field i path)
  perform (add_controller f c) = call (mgr.complete f c)
  perform (add_runnable c) = call (mgr.add c)
  perform (add_health_check n) = call (mgr.add_healthz_check n)
  perform (add_ready_check n) = call (mgr.add_readyz_check n)
  perform start_all = call mgr.start

  -- The actions are performed one after another: all of them, or up to the first that does not
  -- return.
  pub data Runs : List (Action W) → W → Outcome (Unit {0}) → W → Type 0 where
    all_done : (w : W) → Runs [] w (ok tt) w
    next :
        (a : Action W) (rest : List (Action W)) (w w₁ w₂ : W) (r : Outcome (Unit {0}))
        → perform a w ≡ (ok tt, w₁)
        → Runs rest w₁ r w₂
        → Runs (a ∷ rest) w r w₂
    stopped :
        (a : Action W) (rest : List (Action W)) (w w₁ : W) (r : Outcome (Unit {0}))
        → perform a w ≡ (r, w₁)
        → r ≢ ok tt
        → Runs (a ∷ rest) w r w₁

module _ {W : Type 0} where
  -- What is done before the node pool is known.
  abbrev pub preparation : YurtDeviceControllerOptions → List (Action W)
  preparation opts =
      load_config
      ∷ make_manager opts
      ∷ check_namespace opts.namespace
      ∷ index_objects (devices device_index) "spec.nodePool"
      ∷ index_objects (device_services device_service_index) "spec.nodePool"
      ∷ index_objects (device_profiles device_profile_index) "spec.nodePool"
      ∷ []

  -- The parts that run, in the order in which they are added, with the filters of the controllers.
  abbrev pub components : Outside W → YurtDeviceControllerOptions → String → List (Action W)
  components outside opts pool =
      let o = chosen opts pool in
      add_controller filtered (device_profile_controller (new_device_profile_reconciler outside o))
      ∷ add_runnable (device_profile_syncer (new_device_profile_syncer outside o))
      ∷ add_controller filtered (device_controller (new_device_reconciler outside o))
      ∷ add_runnable (device_syncer (new_device_syncer outside o))
      ∷ add_controller none (device_service_controller (new_device_service_reconciler outside o))
      ∷ add_runnable (device_service_syncer (new_device_service_syncer outside o))
      ∷ []

  abbrev pub readiness : List (Action W)
  readiness = add_health_check "health" ∷ add_ready_check "check" ∷ start_all ∷ []

  -- All that is done once the node pool is known.
  abbrev pub from_pool : Outside W → YurtDeviceControllerOptions → String → List (Action W)
  from_pool outside opts pool = components outside opts pool ++ readiness

  -- The node pool that the options name, or else the one that the cluster tells.
  abbrev pub Chooses : Clientset W → YurtDeviceControllerOptions → String → W → W → Type 0
  Chooses cs opts pool w w' =
      ((opts.nodepool ≢ "") × (pool ≡ opts.nodepool) × (w' ≡ w))
      ⊎ ((opts.nodepool ≡ "") × (get_node_pool cs w ≡ (ok pool, w')))

module _ {W : Type 0} (mgr : Manager W) (cs : Clientset W) (outside : Outside W)
    (opts : YurtDeviceControllerOptions) where
  -- How a start with accepted options goes: it fails in the preparation, or after it where the
  -- cluster is asked for the node pool and does not tell one, or it performs all the rest with the
  -- chosen pool, or the rest up to the first action that does not return.
  pub data FollowsPlan : W → Outcome (Unit {0}) → W → Type 0 where
    unprepared :
        (w w' : W) (r : Outcome (Unit {0}))
        → r ≢ ok tt
        → Runs mgr cs (preparation opts) w r w'
        → FollowsPlan w r w'
    without_pool :
        (w w₁ w' : W) (r : Outcome (Unit {0}))
        → r ≢ ok tt
        → Runs mgr cs (preparation opts) w (ok tt) w₁
        → opts.nodepool ≡ ""
        → (get_node_pool cs w₁).1 ≡ w'
        → FollowsPlan w r w'
    with_pool :
        (pool : String) (w w₁ w₂ w' : W) (r : Outcome (Unit {0}))
        → Runs mgr cs (preparation opts) w (ok tt) w₁
        → Chooses cs opts pool w₁ w₂
        → Runs mgr cs (from_pool outside opts pool) w₂ r w'
        → FollowsPlan w r w'
