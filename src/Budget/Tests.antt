-- ===== src/Budget/Tests.antt =====
-- Calls of the budget tracker of budget-tracker.ts at concrete inputs.
use Prim.Native.Nat.{min}
use crabbykit.Prelude.{
  ◌+◌, String, ◌≡◌, refl, some, List, [], ◌∷◌, arith, string_eq, lookup, insert, erase,
}
use crabbykit.Budget.{
  Category, alarm, sql, Category-discrete, category_eq, default_budget, get_limit, check, cleanup,
}
use crabbykit.Budget.Runs.{used, run_checks, attempts, used-run_checks}

budget : Unit {0}
unfolding check cleanup get_limit used run_checks attempts lookup insert erase Category-discrete
budget = tt

abbrev n1 : String
n1 = "n1"

abbrev n2 : String
n2 = "n2"

abbrev alarms : List (String × Category)
alarms =
    (n1, alarm)
    ∷ (n1, alarm)
    ∷ (n2, alarm)
    ∷ (n1, alarm)
    ∷ (n1, sql)
    ∷ (n1, alarm)
    ∷ (n1, alarm)
    ∷ (n1, alarm)
    ∷ []

sixth_refused :
    (check default_budget (run_checks default_budget [] alarms) n1 alarm).1
    ≡ some (record { category = alarm; limit = 5 })
unfolding budget
sixth_refused = refl

used-run_checks_example :
    used (run_checks default_budget [] alarms) n1 alarm
    ≡ min (used [] n1 alarm + attempts n1 alarm alarms) (get_limit default_budget alarm)
unfolding budget
used-run_checks_example = used-run_checks default_budget [] alarms n1 alarm (omega arith)
