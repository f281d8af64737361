-- ===== src/Budget.antt =====
-- The scope of financial data (src/common/budget/budget-context.ts).
use babki_back.Prelude.{Bool, ◌==◌}
use babki_back.Schemas.{ObjectId}

pub record BudgetContext : Type 0 where
  pub space_id : ObjectId

abbrev pub space_budget : ObjectId → BudgetContext
space_budget id = record { space_id = id }

-- The filter `{ spaceId }`, on the space of a document.
abbrev pub budget_filter : BudgetContext → ObjectId → Bool
budget_filter budget space_id = space_id == budget.space_id
