-- ===== src/Orchestration/Leader.antt =====
-- `try_acquire_leader_lease` of llama_pack/core/orchestration/orchestrator.py: which controller
-- instance sweeps. The call is one transaction, so calls of several instances are a sequence.
use llama_pack.Prelude.{
  ℕ, ◌+◌, Bool, true, false, ◌||◌, Option, none, some, ltb, ◌==◌, text_has_eq, if◌then◌else◌,
}
use llama_pack.Prelude.Dict.{lookup, insert}
use llama_pack.Prelude.Text.{Text}
use llama_pack.Orchestration.Rows.{ControllerLease}
use llama_pack.Orchestration.Tx.{Tx, ok}

-- The lease that the caller would hold.
abbrev pub lease_of : Text → ℕ → ℕ → ControllerLease
lease_of holder seconds now = record {
  holder_id = holder;
  expires_at = now + seconds;
  updated_at = now;
}

-- No row, or one that is the caller's or has run out.
unfoldable pub may_lead : Option ControllerLease → Text → ℕ → Bool
may_lead none instance_id now = true
may_lead (some row) instance_id now = row.holder_id == instance_id || ltb row.expires_at now

unfoldable pub try_acquire_leader_lease : Text → ℕ → Text → ℕ → Tx Bool
try_acquire_leader_lease instance_id leader_lease_seconds lease_name now db =
    if may_lead (lookup lease_name db.controller_leases) instance_id now
    then ok (
      true,
      record db {
        controller_leases =
            insert lease_name (lease_of instance_id leader_lease_seconds now) db.controller_leases;
      },
    )
    else ok (false, db)
