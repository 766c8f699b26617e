-- ===== src/App/Startup.antt =====
-- cmd/yurt-device-controller/app/core.go: `preflightCheck`, `Run` and the command that validates the
-- options. The manager of controller-runtime is a parameter.
pub mod Progress
pub mod Plan
mod Parts
pub mod Success
pub mod Laws
use yurt_device_controller.Prelude.{
  ℕ, String, Bool, true, false, Option, none, some, List, [], ◌∷◌, ◌==◌, if◌then◌else◌,
}
use yurt_device_controller.Prelude.Io.{
  Io, Error, Result, Outcome, ok, fail, value, error, Call, attempt, call, pure, raise, ◌>>=◌, ◌>>◌,
}
use yurt_device_controller.Controllers.Predicate.{first_update_filter}
use yurt_device_controller.App.Options.{YurtDeviceControllerOptions, validate_options}
use yurt_device_controller.App.NodePool.{Clientset, get_node_pool}
use yurt_device_controller.App.Indexers.{Index, register_field_indexers}
use yurt_device_controller.App.Components.{
  Outside, Component, UpdateFilter, device_controller, device_service_controller,
  device_profile_controller, device_syncer, device_service_syncer, device_profile_syncer,
  new_device_syncer, new_device_service_syncer, new_device_profile_syncer, new_device_reconciler,
  new_device_service_reconciler, new_device_profile_reconciler,
}

pub record Manager (W : Type 0) : Type 0 where
  -- `ctrl.GetConfigOrDie` and `ctrl.NewManager`
  pub get_config : Call W (Unit {0})
  pub new_manager : YurtDeviceControllerOptions → Call W (Unit {0})
  -- `mgr.GetFieldIndexer().IndexField`
  pub index_field : Index → String → Call W (Unit {0})
  -- the controller builder's `Complete`, and `mgr.Add`
  pub complete : Option UpdateFilter → Component W → Call W (Unit {0})
  pub add : Component W → Call W (Unit {0})
  pub add_healthz_check : String → Call W (Unit {0})
  pub add_readyz_check : String → Call W (Unit {0})
  pub start : Call W (Unit {0})

-- The variables of the program: the world, `opts.Nodepool`, which `Run` may set, and the flag
-- `registerOnce`.
pub record Launch (W : Type 0) : Type 0 where
  pub world : W
  pub nodepool : String
  pub registered : Bool

-- The options with the node pool that was chosen.
abbrev pub chosen : YurtDeviceControllerOptions → String → YurtDeviceControllerOptions
chosen opts pool = record opts { nodepool = pool }

abbrev pub filtered : Option UpdateFilter
filtered = some first_update_filter

module _ {W : Type 0} where
  abbrev pub outside_call : {A : Type 0} → Io W A → Io (Launch W) A
  outside_call m l = let (r, w) = m l.world in (r, record l { world = w })

  unfoldable pub preflight_check : Clientset W → String → Io W (Unit {0})
  preflight_check cs namespace = call cs.connect >> call (cs.get_namespace namespace)

module _ {W : Type 0} (mgr : Manager W) (cs : Clientset W) (outside : Outside W)
    (opts : YurtDeviceControllerOptions) where
  unfoldable pub register_indexers : Io (Launch W) (Unit {0})
  register_indexers l =
      let (e, flag, w) = register_field_indexers mgr.index_field l.registered l.world in
      let l' = record l { world = w; registered = flag } in
      elim e [ some x ↦ (fail x, l') | none ↦ (ok tt, l') ]

  -- The node pool: the option, or the one in which the controller runs.
  unfoldable pub choose_node_pool : Io (Launch W) (Unit {0})
  choose_node_pool l =
      if l.nodepool == ""
      then (outside_call (get_node_pool cs) >>= λ pool.
            λ l'. (ok tt, record l' { nodepool = pool }))
          l
      else (ok tt, l)

  -- The parts in the order in which they are added, with the filter of a controller.
  unfoldable pub add_components : String → Io (Launch W) (Unit {0})
  add_components pool = do
    let profiles =
        device_profile_controller (new_device_profile_reconciler outside (chosen opts pool))
    outside_call (call (mgr.complete filtered profiles))
    let profile_syncer =
        device_profile_syncer (new_device_profile_syncer outside (chosen opts pool))
    outside_call (call (mgr.add profile_syncer))
    let devices = device_controller (new_device_reconciler outside (chosen opts pool))
    outside_call (call (mgr.complete filtered devices))
    let syncer = device_syncer (new_device_syncer outside (chosen opts pool))
    outside_call (call (mgr.add syncer))
    let services =
        device_service_controller (new_device_service_reconciler outside (chosen opts pool))
    outside_call (call (mgr.complete none services))
    let service_syncer =
        device_service_syncer (new_device_service_syncer outside (chosen opts pool))
    outside_call (call (mgr.add service_syncer))

  unfoldable pub start_manager : Io (Launch W) (Unit {0})
  start_manager = do
    outside_call (call (mgr.add_healthz_check "health"))
    outside_call (call (mgr.add_readyz_check "check"))
    outside_call (call mgr.start)

  -- `Run`: an error is `os.Exit(1)`.
  unfoldable pub run : Io (Launch W) (Unit {0})
  run = do
    outside_call (call mgr.get_config)
    outside_call (call (mgr.new_manager opts))
    outside_call (preflight_check cs opts.namespace)
    register_indexers
    choose_node_pool
    (λ l. add_components l.nodepool l)
    start_manager

  -- What the command does: `klog.Fatalf` after invalid options.
  unfoldable pub launch : (String → Option Error) → W → Outcome (Unit {0}) × Launch W
  launch split_host_port w =
      let l : Launch W = record { world = w; nodepool = opts.nodepool; registered = false } in
      elim (validate_options split_host_port opts) [ some e ↦ (fail e, l) | none ↦ run l ]
