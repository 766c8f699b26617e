-- ===== src/App/Startup/Progress.antt =====
-- Which actions code of the start performs.
use yurt_device_controller.Prelude.{◌≡◌, ◌≢◌, refl, ap, ◌∙◌, List, [], ◌∷◌, ◌++◌, Bool}
use mathlib.Core.Path.{fun_ext}
use yurt_device_controller.Prelude.Io.{Io, Outcome, ok, fail, panic, ◌>>◌}
use yurt_device_controller.App.NodePool.{Clientset}
use yurt_device_controller.App.Startup.{Manager, Launch, outside_call}
use yurt_device_controller.App.Startup.Plan.{Action, perform, Runs, all_done, next, stopped}

module _ {W : Type 0} (mgr : Manager W) (cs : Clientset W) where
  pub Runs-append :
      {xs ys : List (Action W)} {w w₁ w₂ : W} {r : Outcome (Unit {0})}
      → Runs mgr cs xs w (ok tt) w₁
      → Runs mgr cs ys w₁ r w₂
      → Runs mgr cs (xs ++ ys) w r w₂
  Runs-append (all_done w) h' = h'
  Runs-append (next a rest w w₁ w₂ r e h) h' = next a _ w w₁ _ _ e (Runs-append h h')
  Runs-append (stopped a rest w w₁ r e failed) h' = absurd (failed refl)

  pub Runs-stop :
      {xs : List (Action W)} (ys : List (Action W)) {w w₁ : W} {r : Outcome (Unit {0})}
      → r ≢ ok tt
      → Runs mgr cs xs w r w₁
      → Runs mgr cs (xs ++ ys) w r w₁
  Runs-stop ys failed (all_done w) = absurd (failed refl)
  Runs-stop ys failed (next a rest w w₁ w₂ r e h) = next a _ w w₁ w₂ r e (Runs-stop ys failed h)
  Runs-stop ys failed (stopped a rest w w₁ r e failed') = stopped a _ w w₁ r e failed'

  -- The actions from one launch to another, which has the same node pool, and where they all
  -- return the flag.
  pub record After (flag : Bool) (xs : List (Action W)) (l : Launch W) (r : Outcome (Unit {0}))
      (l' : Launch W) : Type 0 where
    pub ran : Runs mgr cs xs l.world r l'.world
    pub pool : l'.nodepool ≡ l.nodepool
    pub flagged : r ≡ ok tt → l'.registered ≡ flag

  -- Code that performs the actions, on a launch with a flag, which it leaves with another.
  pub record Does (before after : Bool) (xs : List (Action W)) (m : Io (Launch W) (Unit {0}))
      : Type 0 where
    pub progress : (l : Launch W) → l.registered ≡ before → After after xs l (m l).0 (m l).1

  pub Does-append :
      {a b c : Bool} {xs ys : List (Action W)} (m k : Io (Launch W) (Unit {0}))
      → Does a b xs m
      → Does b c ys k
      → Does a c (xs ++ ys) (m >> k)
  Does-append {a} {b} {c} {xs} {ys} m k h h' = record {
    progress = λ l flag. go l (m l) (h.progress l flag);
  }
    where
      go :
          (l : Launch W) (q : Outcome (Unit {0}) × Launch W)
          → After b xs l q.0 q.1
          → let bound : Io (Launch W) (Unit {0}) = (λ _. q) >> k in
            After c (xs ++ ys) l (bound l).0 (bound l).1
      go l (ok u, l') p =
          let p' = h'.progress l' (p.flagged refl) in
          record { ran = Runs-append p.ran p'.ran; pool = p'.pool ∙ p.pool; flagged = p'.flagged }
      go l (fail e, l') p = record {
        ran = Runs-stop ys (λ q. cc) p.ran;
        pool = p.pool;
        flagged = λ q. cc;
      }
      go l (panic, l') p = record {
        ran = Runs-stop ys (λ q. cc) p.ran;
        pool = p.pool;
        flagged = λ q. cc;
      }

  pub Does-one : {b : Bool} (a : Action W) → Does b b (a ∷ []) (outside_call (perform mgr cs a))
  Does-one {b} a = record {
    progress = λ l flag. record {
      ran = go l (perform mgr cs a l.world) refl;
      pool = refl;
      flagged = λ r. flag;
    };
  }
    where
      go :
          (l : Launch W) (q : Outcome (Unit {0}) × W)
          → perform mgr cs a l.world ≡ q
          → Runs mgr cs (a ∷ []) l.world q.0 q.1
      go l (ok u, w) e = next a [] l.world w w (ok tt) e (all_done w)
      go l (fail x, w) e = stopped a [] l.world w (fail x) e (λ q. cc)
      go l (panic, w) e = stopped a [] l.world w panic e (λ q. cc)

  -- An action before the rest.
  pub Does-then :
      {b c : Bool} (a : Action W) {xs : List (Action W)} {k : Io (Launch W) (Unit {0})}
      → Does b c xs k
      → Does b c (a ∷ xs) (outside_call (perform mgr cs a) >> k)
  Does-then a {k} h = Does-append (outside_call (perform mgr cs a)) k (Does-one a) h

module _ {W : Type 0} where
  bind_assoc :
      (m k n : Io (Launch W) (Unit {0})) (l : Launch W) → ((m >> k) >> n) l ≡ (m >> (k >> n)) l
  bind_assoc m k n l = go (m l)
    where
      go :
          (q : Outcome (Unit {0}) × Launch W)
          → let fixed : Io (Launch W) (Unit {0}) = λ _. q in
            ((fixed >> k) >> n) l ≡ (fixed >> (k >> n)) l
      go (ok u, l') = refl
      go (fail e, l') = refl
      go (panic, l') = refl

  -- Four parts before the rest.
  pub regroup :
      (a b c d n : Io (Launch W) (Unit {0})) (l : Launch W)
      → ((a >> (b >> (c >> d))) >> n) l ≡ (a >> (b >> (c >> (d >> n)))) l
  regroup a b c d n l =
      bind_assoc a (b >> (c >> d)) n l
      ∙ ap (λ (k : Io (Launch W) (Unit {0})). (a >> k) l)
          (fun_ext (λ s.
            bind_assoc b (c >> d) n s
            ∙ ap (λ (k : Io (Launch W) (Unit {0})). (b >> k) s) (fun_ext (bind_assoc c d n))))
