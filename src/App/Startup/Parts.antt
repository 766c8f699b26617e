-- ===== src/App/Startup/Parts.antt =====
-- The two halves of `Run` perform their actions in order.
use yurt_device_controller.Prelude.{
  ◌≡◌, refl, sym, subst, String, Option, List, [], ◌∷◌, none, some, true, false,
}
use yurt_device_controller.Prelude.Io.{
  Io, Error, Outcome, Result, ok, fail, value, error, call, ◌>>◌,
}
use yurt_device_controller.App.Options.{YurtDeviceControllerOptions}
use yurt_device_controller.App.NodePool.{Clientset}
use yurt_device_controller.App.Indexers.{
  Index, devices, device_services, device_profiles, device_index, device_service_index,
  device_profile_index, register_field_indexers, index_all, indexer_path_for_nodepool,
}
use yurt_device_controller.App.Components.{Outside}
use yurt_device_controller.App.Startup.{
  Manager, Launch, outside_call, preflight_check, register_indexers, add_components, start_manager,
}
use yurt_device_controller.App.Startup.Progress.{After, Does, Does-then, Does-one, Does-append}
use yurt_device_controller.App.Startup.Plan.{
  Action, load_config, make_manager, check_namespace, index_objects, add_controller, add_runnable,
  add_health_check, add_ready_check, start_all, perform, Runs, all_done, next, stopped, components,
  preparation, readiness, from_pool,
}

abbrev outcome : Option Error → Outcome (Unit {0})
outcome none = ok tt
outcome (some x) = fail x

module _ {W : Type 0} (mgr : Manager W) (cs : Clientset W) (outside : Outside W)
    (opts : YurtDeviceControllerOptions) where
  abbrev index_actions : List Index → List (Action W)
  index_actions [] = []
  index_actions (i ∷ is) = index_objects i indexer_path_for_nodepool ∷ index_actions is

  index_all-Runs :
      (is : List Index) (w : W)
      → let (e, w') = index_all mgr.index_field is w in
        Runs mgr cs (index_actions is) w (outcome e) w'
  unfolding index_all perform
  index_all-Runs [] w = all_done w
  index_all-Runs (i ∷ is) w =
      go (mgr.index_field i indexer_path_for_nodepool w) refl
        (index_all-Runs is (mgr.index_field i indexer_path_for_nodepool w).1)
    where
      go :
          (q : Result (Unit {0}) × W)
          → mgr.index_field i indexer_path_for_nodepool w ≡ q
          → Runs mgr cs
              (index_actions is)
              q.1
              (outcome (index_all mgr.index_field is q.1).0)
              (index_all mgr.index_field is q.1).1
          → let rest = index_all mgr.index_field is q.1 in
            let (e, w') : Option Error × W = elim (q.0) [
              | error x ↦ (some x, q.1)
              | value _ ↦ rest
            ] in
            Runs mgr cs (index_actions (i ∷ is)) w (outcome e) w'
      go (value u, w') e rest =
          next (index_objects i indexer_path_for_nodepool) _ w w' _ _ (rw (perform, e) refl) rest
      go (error x, w') e rest =
          stopped (index_objects i indexer_path_for_nodepool) _ w w' (fail x) (rw (perform, e) refl)
            (λ p. cc)

  abbrev indices : List Index
  indices =
      devices device_index
      ∷ device_services device_service_index
      ∷ device_profiles device_profile_index
      ∷ []

  first_registration :
      (l : Launch W)
      → l.registered ≡ false
      → let (e, w') = index_all mgr.index_field indices l.world in
        register_indexers mgr cs outside opts l
        ≡ (outcome e, record l { world = w'; registered = true })
  unfolding register_indexers register_field_indexers
  first_registration l flag = rw flag (go (index_all mgr.index_field indices l.world))
    where
      go :
          (q : Option Error × W)
          → let l' : Launch W = record l { world = q.1; registered = true } in
            let m : Outcome (Unit {0}) × Launch W = elim (q.0) [
              | some x ↦ (fail x, l')
              | none ↦ (ok tt, l')
            ] in
            m ≡ (outcome q.0, l')
      go (none, w') = refl
      go (some x, w') = refl

  Does-indexers :
      Does mgr cs false true (index_actions indices) (register_indexers mgr cs outside opts)
  Does-indexers = record {
    progress = λ l flag.
        subst
          (λ (q : Outcome (Unit {0}) × Launch W).
            After mgr cs true (index_actions indices) l q.0 q.1)
          (sym (first_registration l flag))
          (record { ran = index_all-Runs indices l.world; pool = refl; flagged = λ r. refl });
  }

  -- The two halves of `run`, before and after the node pool is chosen.
  unfoldable pub prepare : Io (Launch W) (Unit {0})
  prepare = do
    outside_call (call mgr.get_config)
    outside_call (call (mgr.new_manager opts))
    outside_call (preflight_check cs opts.namespace)
    register_indexers mgr cs outside opts

  pub Does-prepare : Does mgr cs false true (preparation opts) prepare
  unfolding prepare perform
  Does-prepare = Does-then mgr cs load_config (
      Does-then mgr cs (make_manager opts)
        (Does-then mgr cs (check_namespace opts.namespace) Does-indexers))

  unfoldable pub add_and_start : String → Io (Launch W) (Unit {0})
  add_and_start pool = do add_components mgr cs outside opts pool; start_manager mgr cs outside opts

  Does-start : Does mgr cs true true readiness (start_manager mgr cs outside opts)
  unfolding start_manager perform
  Does-start =
      Does-then mgr cs (add_health_check "health")
        (Does-then mgr cs (add_ready_check "check") (Does-one mgr cs start_all))

  Does-components :
      (pool : String)
      → Does mgr cs true true
          (components outside opts pool)
          (add_components mgr cs outside opts pool)
  unfolding add_components perform
  Does-components pool = Does-then mgr cs (add_controller _ _) (
      Does-then mgr cs (add_runnable _) (
        Does-then mgr cs (add_controller _ _) (
          Does-then mgr cs (add_runnable _)
            (Does-then mgr cs (add_controller _ _) (Does-one mgr cs (add_runnable _))))))

  pub Does-add_and_start :
      (pool : String) → Does mgr cs true true (from_pool outside opts pool) (add_and_start pool)
  unfolding add_and_start
  Does-add_and_start pool =
      Does-append mgr cs (add_components mgr cs outside opts pool)
        (start_manager mgr cs outside opts) (Does-components pool) Does-start
