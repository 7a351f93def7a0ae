-- ===== src/Tenancy.antt =====
-- Transactions of one tenant (src/agentledger/tenancy/context.py). What the database holds beside
-- the job queue is a type `W`; the tenant that `activate_tenant` sets for the transaction is handed
-- to its body.
use agentledger_mvp_v.Base.{ℕ, String, Option, none, some, str_eq, if◌then◌else◌}
use agentledger_mvp_v.Base.Result.{Result, ok, err}

-- An exception: the lost lease of a job, or any other, by the name of its type.
pub data Failure : Type 0 where
  lost_job_lease : ℕ → Failure
  exception : String → Failure

module _ {W A : Type 0} where
  -- `transaction.atomic`: an exception that leaves the block undoes what the block wrote.
  abbrev pub atomic : (W → Result Failure A × W) → W → Result Failure A × W
  atomic body w = let (r, w') = body w in elim r [ ok a ↦ (ok a, w') | err e ↦ (err e, w) ]

  unfoldable pub tenant_transaction :
      ℕ → Option String → (ℕ → W → Result Failure A × W) → W → Result Failure A × W
  tenant_transaction organization_id none body w = atomic (body organization_id) w
  tenant_transaction organization_id (some isolation) body w =
      if str_eq isolation "repeatable_read"
      then atomic (body organization_id) w
      else (err (exception "builtins.ValueError"), w)
