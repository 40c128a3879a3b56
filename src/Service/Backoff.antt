-- ===== src/Service/Backoff.antt =====
-- The settings of the backoff and of the lease, as the service hands them to the repository.
use dreon_notification.Prelude.{ℕ, ◌+◌, ◌≤◌, ◌≡◌, arith}
use dreon_notification.Go.Int.{ℤ, to_ℕ, second, add_duration, add_duration-seconds}
use dreon_notification.Repository.Notifications.{clamp_initial, clamp_max}
use dreon_notification.Service.{NotificationConfig, or_default, backoff_params, publish_lease}

-- Whatever the configuration, the initial delay is at least one second and the cap is not below it.
pub backoff_params_bounds :
    (cfg : NotificationConfig)
    → (1 ≤ to_ℕ (backoff_params cfg).0)
      × (to_ℕ (backoff_params cfg).0 ≤ to_ℕ (backoff_params cfg).1)
unfolding backoff_params
backoff_params_bounds cfg = ground arith

-- The clamps of the repository keep the settings that the service hands it as they are.
clamp-backoff_params :
    (cfg : NotificationConfig)
    → (clamp_initial (backoff_params cfg).0 ≡ (backoff_params cfg).0)
      × (clamp_max (backoff_params cfg).0 (backoff_params cfg).1 ≡ (backoff_params cfg).1)
unfolding backoff_params clamp_initial clamp_max
clamp-backoff_params cfg = ground arith

lease_bounds :
    (n : ℤ)
    → to_ℕ n ≤ 9223372036
    → (1 ≤ to_ℕ (or_default n 300)) × (to_ℕ (or_default n 300) ≤ 9223372036)
lease_bounds n h = ground arith

-- The lease of a claim ends at least a second after the claim, if the setting is at most 292 years.
publish_lease_positive :
    (cfg : NotificationConfig) (now : ℕ)
    → to_ℕ cfg.retry_publish_lease_sec ≤ 9223372036
    → now + second ≤ add_duration now (publish_lease cfg)
unfolding publish_lease
publish_lease_positive cfg now h =
    let sec = to_ℕ (or_default cfg.retry_publish_lease_sec 300) in
    let (low, high) = lease_bounds cfg.retry_publish_lease_sec h in
    omega (arith, add_duration-seconds now sec high)
