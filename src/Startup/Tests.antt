-- ===== src/Startup/Tests.antt =====
-- Runs of cmd/rest-trans/main.go.
use rest_trans.Prelude.{◌+◌, ◌≤◌, ◌≡◌, ◌==◌, refl, true, false, arith}
use rest_trans.Startup.{retry_ping_db}
use rest_trans.Startup.Retries.{retry_ping_db-reached}

-- The database answers from the third ping on.
third : retry_ping_db (λ i. i == 2) 15 true ≡ record { reached = true; pings = 3; pauses = 2 }
unfolding retry_ping_db
third = refl

given_up : retry_ping_db (λ i. false) 15 true ≡ record { reached = false; pings = 15; pauses = 14 }
unfolding retry_ping_db
given_up = refl

retry_ping_db-reached_example :
    ((retry_ping_db (λ i. i == 2) 15 true).reached ≡ true)
    × ((retry_ping_db (λ i. i == 2) 15 true).pings ≤ 2 + 1)
    × ((retry_ping_db (λ i. i == 2) 15 true).pings ≤ 15)
retry_ping_db-reached_example = retry_ping_db-reached (λ i. i == 2) 15 true 2 (omega arith) refl
