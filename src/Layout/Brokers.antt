-- ===== src/Layout/Brokers.antt =====
-- The sum of the brokers' states.
use mqtt_dashboard.Prelude.{
  ◌<◌, ◌≤◌, ◌≡◌, ◌↔◌, Bool, true, false, not, ◌&&◌, List, [], ◌∷◌, any, length, arith,
}
use mqtt_dashboard.Layout.{
  BrokerStatus, connected, partially_connected, disconnected, is_connected, enabled_brokers,
  connected_brokers, compute_aggregated,
}

-- An enabled broker is up, and an enabled broker is down.
abbrev pub some_up : List BrokerStatus → Bool
some_up bs = any (λ b. b.is_enabled && is_connected b) bs

abbrev pub some_down : List BrokerStatus → Bool
some_down bs = any (λ b. b.is_enabled && not (is_connected b)) bs

up_below : (bs : List BrokerStatus) → length (connected_brokers bs) ≤ length (enabled_brokers bs)
unfolding connected_brokers
up_below [] = omega arith
up_below (b ∷ bs) = ground (arith, up_below bs)

up_some : (bs : List BrokerStatus) → (some_up bs ≡ true) ↔ (0 < length (connected_brokers bs))
unfolding connected_brokers
up_some [] = ground arith
up_some (b ∷ bs) = ground (arith, up_some bs)

down_some :
    (bs : List BrokerStatus)
    → (some_down bs ≡ true) ↔ (length (connected_brokers bs) < length (enabled_brokers bs))
unfolding connected_brokers
down_some [] = ground arith
down_some (b ∷ bs) = ground (arith, down_some bs, up_below bs)

-- The sum says connected exactly when some enabled broker is up and none is down, partially
-- connected exactly when one is up and one is down, and disconnected exactly when none is up.
pub compute_aggregated_iff :
    (bs : List BrokerStatus)
    → ((compute_aggregated bs ≡ connected) ↔ ((some_up bs ≡ true) × (some_down bs ≡ false)))
      × ((compute_aggregated bs ≡ partially_connected)
          ↔ ((some_up bs ≡ true) × (some_down bs ≡ true)))
      × ((compute_aggregated bs ≡ disconnected) ↔ (some_up bs ≡ false))
unfolding compute_aggregated
compute_aggregated_iff bs = ground (arith, up_some bs, down_some bs, up_below bs)
