-- ===== src/App/Startup/Success.antt =====
-- When the start succeeds.
use yurt_device_controller.Prelude.{
  ◌≡◌, ◌≢◌, refl, arith, subst, inl, inr, String, Option, none, List, ◌++◌,
}
use yurt_device_controller.Prelude.Io.{Call, Error, Outcome, ok, value}
use yurt_device_controller.App.Options.{YurtDeviceControllerOptions, validate_options}
use yurt_device_controller.App.NodePool.{Clientset}
use yurt_device_controller.App.Indexers.{Index}
use yurt_device_controller.App.Components.{Outside, Component, UpdateFilter}
use yurt_device_controller.App.Startup.{Manager, preflight_check, launch}
use yurt_device_controller.App.Startup.Laws.{launch_in_order}
use yurt_device_controller.App.Startup.Progress.{Runs-append}
use yurt_device_controller.App.Startup.Plan.{
  Action, load_config, make_manager, check_namespace, index_objects, add_controller, add_runnable,
  add_health_check, add_ready_check, start_all, perform, Runs, all_done, next, stopped, preparation,
  from_pool, FollowsPlan, unprepared, without_pool, with_pool,
}

-- The call is always answered without an error.
abbrev pub Answers : {W A : Type 0} → Call W A → Type 0
Answers {W} {A} c = (w : W) → (a : A) × (w' : W) × (c w ≡ (value a, w'))

-- What the start needs of its surroundings.
pub record Responsive {W : Type 0} (mgr : Manager W) (cs : Clientset W) : Type 0 where
  pub get_config : Answers mgr.get_config
  pub new_manager : (opts : YurtDeviceControllerOptions) → Answers (mgr.new_manager opts)
  pub index_field : (i : Index) (path : String) → Answers (mgr.index_field i path)
  pub complete : (f : Option UpdateFilter) (c : Component W) → Answers (mgr.complete f c)
  pub add : (c : Component W) → Answers (mgr.add c)
  pub add_healthz_check : (n : String) → Answers (mgr.add_healthz_check n)
  pub add_readyz_check : (n : String) → Answers (mgr.add_readyz_check n)
  pub start : Answers mgr.start
  pub connect : Answers cs.connect
  pub get_namespace : (n : String) → Answers (cs.get_namespace n)

module _ {W : Type 0} (mgr : Manager W) (cs : Clientset W) (h : Responsive mgr cs) where
  perform-ok : (a : Action W) (w : W) → (perform mgr cs a w).0 ≡ ok tt
  unfolding perform preflight_check
  perform-ok load_config w = let (u, w', e) = h.get_config w in ground (arith, e)
  perform-ok (make_manager opts) w = let (u, w', e) = h.new_manager opts w in ground (arith, e)
  perform-ok (check_namespace n) w =
      let (u, w', e) = h.connect w in
      let (u', w'', e') = h.get_namespace n w' in ground (arith, e, e')
  perform-ok (index_objects i path) w = let (u, w', e) = h.index_field i path w in ground (arith, e)
  perform-ok (add_controller f c) w = let (u, w', e) = h.complete f c w in ground (arith, e)
  perform-ok (add_runnable c) w = let (u, w', e) = h.add c w in ground (arith, e)
  perform-ok (add_health_check n) w = let (u, w', e) = h.add_healthz_check n w in ground (arith, e)
  perform-ok (add_ready_check n) w = let (u, w', e) = h.add_readyz_check n w in ground (arith, e)
  perform-ok start_all w = let (u, w', e) = h.start w in ground (arith, e)

  Runs-ok :
      {xs : List (Action W)} {w w' : W} {r : Outcome (Unit {0})} → Runs mgr cs xs w r w' → r ≡ ok tt
  Runs-ok (all_done w) = refl
  Runs-ok (next a rest w w₁ w₂ r e run) = Runs-ok run
  Runs-ok (stopped a rest w w₁ r e failed) = absurd (failed (ground (arith, e, perform-ok a w)))

module _ {W : Type 0} (mgr : Manager W) (cs : Clientset W) (outside : Outside W)
    (opts : YurtDeviceControllerOptions) (h : Responsive mgr cs) where
  -- All calls that are made with the node pool of the options.
  abbrev pub startup_order : List (Action W)
  startup_order = preparation opts ++ from_pool outside opts opts.nodepool

  followed :
      (w w' : W) (r : Outcome (Unit {0}))
      → opts.nodepool ≢ ""
      → FollowsPlan mgr cs outside opts w r w'
      → (r ≡ ok tt) × Runs mgr cs startup_order w (ok tt) w'
  followed w w' r named (unprepared _ _ _ failed ran) = absurd (failed (Runs-ok mgr cs h ran))
  followed w w' r named (without_pool _ w₁ _ _ failed ran unnamed e) = absurd (named unnamed)
  followed w w' r named (with_pool pool _ w₁ w₂ _ _ ran (inr (unnamed, e)) rest) =
      absurd (named unnamed)
  followed w w' r named (with_pool pool _ w₁ w₂ _ _ ran (inl (n, e, same)) rest) =
      let done = Runs-ok mgr cs h rest in
      let here = subst (λ x. Runs mgr cs (from_pool outside opts pool) w₂ x w') done rest in
      let there = subst (λ v. Runs mgr cs (from_pool outside opts pool) v (ok tt) w') same here in
      (
        done,
        Runs-append mgr cs ran
            (subst (λ p. Runs mgr cs (from_pool outside opts p) w₁ (ok tt) w') e there),
      )

  -- Where every call of the manager and of the cluster is answered without an error, the options
  -- name a node pool and their addresses are accepted, the start ends without an error, and has
  -- made all calls of the plan in order, that of `mgr.Start` last.
  pub launch_succeeds :
      (split_host_port : String → Option Error) (w : W)
      → validate_options split_host_port opts ≡ none
      → opts.nodepool ≢ ""
      → let (r, l') = launch mgr cs outside opts split_host_port w in
        (r ≡ ok tt) × Runs mgr cs startup_order w (ok tt) l'.world
  launch_succeeds split_host_port w valid named =
      let (r, l') = launch mgr cs outside opts split_host_port w in
      followed w l'.world r named ((launch_in_order mgr cs outside opts split_host_port w).0 valid)
