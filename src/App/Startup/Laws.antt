-- ===== src/App/Startup/Laws.antt =====
-- In which order the parts are started.
use yurt_device_controller.Prelude.{
  ◌≡◌, ◌≢◌, ◌⊎◌, inl, inr, refl, arith, eq_iff, String, Option, none, some, true, false, ◌==◌, ap,
  ◌∙◌, subst, Bool-cases,
}
use yurt_device_controller.Prelude.Io.{Io, Error, Outcome, ok, fail, panic, call, ◌>>=◌, ◌>>◌}
use yurt_device_controller.App.Options.{YurtDeviceControllerOptions, validate_options}
use yurt_device_controller.App.NodePool.{Clientset, get_node_pool}
use yurt_device_controller.App.Components.{Outside}
use yurt_device_controller.App.Startup.{
  Manager, preflight_check, Launch, outside_call, register_indexers, choose_node_pool, run, launch,
}
use yurt_device_controller.App.Startup.Progress.{After, regroup}
use yurt_device_controller.App.Startup.Plan.{
  Runs, preparation, Chooses, FollowsPlan, unprepared, without_pool, with_pool,
}
use yurt_device_controller.App.Startup.Parts.{
  prepare, add_and_start, Does-prepare, Does-add_and_start,
}

module _ {W : Type 0} (mgr : Manager W) (cs : Clientset W) (outside : Outside W)
    (opts : YurtDeviceControllerOptions) where
  from_choice : Io (Launch W) (Unit {0})
  from_choice = do
    choose_node_pool mgr cs outside opts
    (λ l. add_and_start mgr cs outside opts l.nodepool l)

  run-prepare :
      (l : Launch W) → (prepare mgr cs outside opts >> from_choice) l ≡ run mgr cs outside opts l
  unfolding prepare add_and_start from_choice run
  run-prepare l =
      regroup (outside_call (call mgr.get_config)) (outside_call (call (mgr.new_manager opts)))
        (outside_call (preflight_check cs opts.namespace)) (register_indexers mgr cs outside opts)
        from_choice l

  -- What the choice of the node pool comes to.
  abbrev Choice : Launch W → Outcome (Unit {0}) × Launch W → Type 0
  Choice l q =
      ((q.0 ≡ ok tt)
        × Chooses cs opts q.1.nodepool l.world q.1.world
        × (q.1.registered ≡ l.registered))
      ⊎ ((q.0 ≢ ok tt) × (opts.nodepool ≡ "") × ((get_node_pool cs l.world).1 ≡ q.1.world))

  choose_node_pool_lem :
      (l : Launch W)
      → l.nodepool ≡ opts.nodepool
      → Choice l (choose_node_pool mgr cs outside opts l)
  unfolding choose_node_pool
  choose_node_pool_lem l same = elim (Bool-cases (l.nodepool == "")) [
    | inl unnamed ↦
        rw unnamed (go (get_node_pool cs l.world) refl (ground (arith, eq_iff l.nodepool "")))
    | inr named ↦
        rw named (inl (refl, inl (ground (arith, eq_iff l.nodepool ""), same, refl), refl))
  ]
    where
      go :
          (q : Outcome String × W)
          → get_node_pool cs l.world ≡ q
          → opts.nodepool ≡ ""
          → let m : Io (Launch W) (Unit {0}) =
              outside_call (λ w. q) >>= λ pool. λ l'. (ok tt, record l' { nodepool = pool }) in
            Choice l (m l)
      go (ok pool, w) e unnamed = inl (refl, inr (unnamed, e), refl)
      go (fail x, w) e unnamed = inr (λ p. cc, unnamed, ap (λ (q : Outcome String × W). q.1) e)
      go (panic, w) e unnamed = inr (λ p. cc, unnamed, ap (λ (q : Outcome String × W). q.1) e)

  from_choice_lem :
      (w : W) (l : Launch W)
      → l.nodepool ≡ opts.nodepool
      → l.registered ≡ true
      → Runs mgr cs (preparation opts) w (ok tt) l.world
      → let (r, l') = from_choice l in FollowsPlan mgr cs outside opts w r l'.world
  unfolding from_choice
  from_choice_lem w l same flag before =
      go (choose_node_pool mgr cs outside opts l) (choose_node_pool_lem l same)
    where
      go :
          (q : Outcome (Unit {0}) × Launch W)
          → Choice l q
          → let m : Io (Launch W) (Unit {0}) =
              (λ _. q) >> (λ s. add_and_start mgr cs outside opts s.nodepool s) in
            FollowsPlan mgr cs outside opts w (m l).0 (m l).1.world
      go (ok u, l') (inl (e, picked, kept)) =
          with_pool l'.nodepool w l.world l'.world _ _ before picked
            ((Does-add_and_start mgr cs outside opts l'.nodepool).progress l' (kept ∙ flag)).ran
      go (ok u, l') (inr (failed, unnamed, e)) = absurd (failed refl)
      go (fail x, l') (inl (e, picked, kept)) = absurd cc
      go (fail x, l') (inr (failed, unnamed, e)) =
          without_pool w l.world l'.world (fail x) failed before unnamed e
      go (panic, l') (inl (e, picked, kept)) = absurd cc
      go (panic, l') (inr (failed, unnamed, e)) =
          without_pool w l.world l'.world panic failed before unnamed e

  run_in_order :
      (l : Launch W)
      → l.nodepool ≡ opts.nodepool
      → l.registered ≡ false
      → let (r, l') = run mgr cs outside opts l in
        FollowsPlan mgr cs outside opts l.world r l'.world
  run_in_order l same flag =
      subst
        (λ (q : Outcome (Unit {0}) × Launch W).
          FollowsPlan mgr cs outside opts l.world q.0 q.1.world)
        (run-prepare l)
        (go (prepare mgr cs outside opts l) ((Does-prepare mgr cs outside opts).progress l flag))
    where
      go :
          (q : Outcome (Unit {0}) × Launch W)
          → After mgr cs true (preparation opts) l q.0 q.1
          → let m : Io (Launch W) (Unit {0}) = (λ _. q) >> from_choice in
            FollowsPlan mgr cs outside opts l.world (m l).0 (m l).1.world
      go (ok u, l') h = from_choice_lem l.world l' (h.pool ∙ same) (h.flagged refl) h.ran
      go (fail x, l') h = unprepared l.world l'.world (fail x) (λ p. cc) h.ran
      go (panic, l') h = unprepared l.world l'.world panic (λ p. cc) h.ran

  -- Whatever the calls answer, the start with options that are accepted makes exactly the calls
  -- of the plan, in its order, each on the world that the one before left, and stops at the
  -- first that does not return: the configuration, the manager, the check of the namespace and
  -- the three field indexes; then the node pool, that of the options or, where they name none,
  -- the one that `GetNodePool` tells; then, with that pool in their options, the six parts, the
  -- controllers of devices and of profiles with the filter on updates and that of services
  -- without it, the two checks of health, and the start of the manager. With options that are
  -- refused, no call is made and the start fails.
  pub launch_in_order :
      (split_host_port : String → Option Error) (w : W)
      → let (r, l') = launch mgr cs outside opts split_host_port w in
        (validate_options split_host_port opts ≡ none
          → FollowsPlan mgr cs outside opts w r l'.world)
        × (validate_options split_host_port opts ≢ none → (r ≢ ok tt) × (l'.world ≡ w))
  unfolding launch
  launch_in_order split_host_port w = go (validate_options split_host_port opts)
    where
      l : Launch W
      l = record { world = w; nodepool = opts.nodepool; registered = false }

      go :
          (v : Option Error)
          → let (r, l') : Outcome (Unit {0}) × Launch W = elim v [
            | some e ↦ (fail e, l)
            | none ↦ run mgr cs outside opts l
          ] in
            (v ≡ none → FollowsPlan mgr cs outside opts w r l'.world)
            × (v ≢ none → (r ≢ ok tt) × (l'.world ≡ w))
      go none = (λ e. run_in_order l refl refl, λ h. absurd (h refl))
      go (some e) = (λ p. absurd cc, λ h. (λ p. cc, refl))
