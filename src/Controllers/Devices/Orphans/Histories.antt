-- ===== src/Controllers/Devices/Orphans/Histories.antt =====
-- Any sequence of calls of the reconciler and of rounds of the syncer, with the actions of others in
-- between.
use yurt_device_controller.Prelude.{◌≡◌, arith, Bool, Bool-cases, true, false, String}
use yurt_device_controller.Api.{Device}
use yurt_device_controller.Controllers.Devices.Reconciler.{DeviceReconciler}
use yurt_device_controller.Controllers.Devices.Reconcile.{reconcile_loaded}
use yurt_device_controller.Controllers.Devices.Orphans.{Guards, IsCurrent, Safe, reconcile-Safe}
use yurt_device_controller.Controllers.DeviceSyncer.{DeviceSyncer, sync_round}
use yurt_device_controller.Controllers.DeviceSyncer.Worlds.{CallsKeep, sync_round_keeps}

module _ {W : Type 0} (r : DeviceReconciler W) (name : String) (on_edge guarded : W → Bool)
    (h : Guards r name on_edge guarded) (ds : DeviceSyncer W)
    (makes_none : CallsKeep ds on_edge false) (strips_none : CallsKeep ds guarded true) where
  -- What happens to the world: the controller handles the resource of the device, whatever comes of
  -- its calls; the
  -- syncer makes a round, whose calls do not make the device on the edge platform and do not take away
  -- finalizers; or others act, who do neither, the controller with other devices among them.
  pub data Step : W → W → Type 0 where
    reconciled :
        (w : W) (d : Device)
        → IsCurrent r name on_edge guarded h d w
        → Step w (reconcile_loaded r w d).1.world
    round : (w : W) → Step w (sync_round ds w).1
    others :
        (w w' : W)
        → (on_edge w ≡ false → on_edge w' ≡ false)
        → (guarded w ≡ true → guarded w' ≡ true)
        → Step w w'

  pub data Reach (start : W) : W → Type 0 where
    begun : Reach start start
    step : {w w' : W} → Reach start w → Step w w' → Reach start w'

  Step-Safe :
      {w w' : W} → Step w w' → Safe r name on_edge guarded h w → Safe r name on_edge guarded h w'
  Step-Safe (reconciled w d current) safe = reconcile-Safe r name on_edge guarded h w d current safe
  Step-Safe (round w) safe = ground (
    arith,
    safe,
    sync_round_keeps ds on_edge false makes_none w,
    sync_round_keeps ds guarded true strips_none w,
    Bool-cases (on_edge w),
  )
  Step-Safe (others w w' stays_absent stays_guarded) safe =
      ground (arith, safe, stays_absent, stays_guarded, Bool-cases (on_edge w))

  -- For a device that one resource of the cluster stands for: however often the resource is handled
  -- as the cluster has it and the syncer makes rounds, with whatever failures, and whatever others do
  -- in between, short of making the device on the edge platform or taking finalizers away: from a state in which the edge platform does not have the device, a state in which the edge
  -- platform has it and no resource with finalizers stands for it is never reached.
  pub no_orphans :
      {start w : W} → on_edge start ≡ false → Reach start w → on_edge w ≡ true → guarded w ≡ true
  no_orphans absent begun there = cc
  no_orphans absent (step reached taken) there = Step-Safe taken (no_orphans absent reached) there
