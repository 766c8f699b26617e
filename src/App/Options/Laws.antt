-- ===== src/App/Options/Laws.antt =====
-- Which addresses pass, and which periods the syncers wait for.
use yurt_device_controller.Prelude.{
  ℕ, ◌*◌, ◌^◌, ◌<◌, ◌≤◌, ◌≡◌, ◌⊎◌, ◌↔◌, arith, eq_iff, String, Option, none,
}
use yurt_device_controller.Prelude.Io.{Error}
use yurt_device_controller.App.Options.{
  YurtDeviceControllerOptions, validate_options, sync_duration,
}

module _ (split_host_port : String → Option Error) where
  -- An address that is empty, or that `net.SplitHostPort` splits without an error.
  abbrev pub IsAddress : String → Type 0
  IsAddress addr = (addr ≡ "") ⊎ (split_host_port addr ≡ none)

  -- The options are accepted exactly if each of the three addresses is empty or is split by
  -- `net.SplitHostPort` without an error. No other option is looked at, the period of the syncers
  -- among them.
  pub validate_options_iff :
      (o : YurtDeviceControllerOptions)
      → (validate_options split_host_port o ≡ none) ↔ (
          IsAddress o.core_data_addr
          × IsAddress o.core_metadata_addr
          × IsAddress o.core_command_addr)
  unfolding validate_options
  validate_options_iff o = (
    λ h. ground (
      arith,
      eq_iff o.core_data_addr "",
      eq_iff o.core_metadata_addr "",
      eq_iff o.core_command_addr "",
    ),
    λ h. ground (
      arith,
      eq_iff o.core_data_addr "",
      eq_iff o.core_metadata_addr "",
      eq_iff o.core_command_addr "",
    ),
  )

-- The wait is as long as the flag says, and not negative as an int64, exactly up to 9223372036 seconds,
-- which is 292 years.
pub sync_duration_exact :
    (period : ℕ)
    → ((sync_duration period ≡ period * 1000000000) × (sync_duration period < 2 ^ 63))
      ↔ (period ≤ 9223372036)
unfolding sync_duration
sync_duration_exact period = (λ h. omega arith, λ h. omega arith)
