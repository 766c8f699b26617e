-- ===== src/Controllers/Loops.antt =====
-- The loops of the syncers: a round each time the timer fires, for as many times as it does.
use yurt_device_controller.Prelude.{ℕ, zero, suc, ◌≡◌, refl, arith}
use yurt_device_controller.Prelude.Io.{Io, ok, pure, ◌>>◌}

module _ {W : Type 0} where
  unfoldable pub repeat : ℕ → Io W (Unit {0}) → Io W (Unit {0})
  repeat zero round = pure tt
  repeat (suc n) round = round >> repeat n round

  -- Rounds that always return never stop the loop.
  pub repeat_returns :
      (round : Io W (Unit {0}))
      → ((w : W) → (round w).0 ≡ ok tt)
      → (n : ℕ) (w : W) → (repeat n round w).0 ≡ ok tt
  unfolding repeat
  repeat_returns round returns zero w = refl
  repeat_returns round returns (suc n) w =
      ground (arith, returns w, repeat_returns round returns n (round w).1)

  -- One more round comes after the others.
  pub repeat_last :
      (round : Io W (Unit {0})) (n : ℕ) (w w' : W)
      → ((v : W) → (round v).0 ≡ ok tt)
      → round (repeat n round w).1 ≡ (ok tt, w')
      → repeat (suc n) round w ≡ (ok tt, w')
  unfolding repeat
  repeat_last round zero w w' returns last = ground (arith, last)
  repeat_last round (suc n) w w' returns last =
      ground (arith, returns w, repeat_last round n (round w).1 w' returns)
