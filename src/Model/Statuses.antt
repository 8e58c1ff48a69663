-- ===== src/Model/Statuses.antt =====
-- How `validate_status` of the model client classifies a status.
use rust_agent_harness.Prelude.{ℕ, ◌≤◌, ◌<◌, ◌≡◌, ◌↔◌, ok, err, arith}
use rust_agent_harness.Model.{validate_status, connection_rejected}

-- A status passes exactly when it is from 200 to 299, and is the one of a rejected connection
-- exactly when it is 401.
pub validate_status_classes :
    (status : ℕ)
    → ((validate_status status ≡ ok tt) ↔ ((200 ≤ status) × (status < 300)))
      × ((validate_status status ≡ err connection_rejected) ↔ (status ≡ 401))
unfolding validate_status
validate_status_classes status = ((ground arith, ground arith), (ground arith, ground arith))
