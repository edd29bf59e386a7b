-- ===== src/Tenant.antt =====
-- A tenant's database under the three modules that move its stock: every call that the services of
-- inventory, sales and purchase make of their repositories, and histories of such calls
-- (backend/src/modules/{inventory,sales,purchase}/application/*.service.ts). A call that throws ends
-- there and the next one follows.
pub mod Settled
use vrindavan.Base.{List, [], ◌∷◌}
use vrindavan.Db.{Db, Clock}
use vrindavan.Stock.Consistent.{IsConsistent}
use vrindavan.Inventory
use vrindavan.Sales
use vrindavan.Purchase

pub data Call : Type 0 where
  inventory : Inventory.System.Call → Call
  sales : Sales.System.Call → Call
  purchase : Purchase.System.Call → Call

-- The database after a call, whether it returned or threw.
unfoldable pub step : Clock → Call → Db → Db
unfolding Inventory.System.step Sales.System.step Purchase.System.step
step clock (inventory call) = Inventory.System.step clock call
step clock (sales call) = Sales.System.step clock call
step clock (purchase call) = Purchase.System.step clock call

unfoldable pub run_calls : List (Clock × Call) → Db → Db
unfolding step
run_calls [] s = s
run_calls ((clock, call) ∷ rest) s = run_calls rest (step clock call s)

step-IsConsistent :
    (clock : Clock) (call : Call) (s : Db) → IsConsistent s → IsConsistent (step clock call s)
unfolding step
step-IsConsistent clock (inventory call) = Inventory.System.step-IsConsistent clock call
step-IsConsistent clock (sales call) = Sales.System.Stock.step-IsConsistent clock call
step-IsConsistent clock (purchase call) = Purchase.System.Stock.step-IsConsistent clock call

-- After any history of calls of the inventory, sales and purchase modules, from a database whose
-- stock tables are consistent, they are consistent: the quantity on hand at every dimension is what
-- the ledger adds up to, no stock has two balance rows, and every balance covers what is reserved
-- and blocked of it. This holds whichever of the calls throw.
pub run_calls-IsConsistent :
    (history : List (Clock × Call)) (s : Db) → IsConsistent s → IsConsistent (run_calls history s)
unfolding run_calls
run_calls-IsConsistent [] s c = c
run_calls-IsConsistent ((clock, call) ∷ rest) s c =
    run_calls-IsConsistent rest (step clock call s) (step-IsConsistent clock call s c)
