-- ===== src/Budget.antt =====
-- The per-turn RPC budgets of packages/runtime/bundle-host/src/budget-tracker.ts: call counts by
-- token nonce and category, with the errors as values.
pub mod Runs
mod Tests
use crabbykit.Prelude.{
  ℕ, ◌+◌, String, Option, none, some, List, [], ◌∷◌, StrictEq, string_eq, discrete_eq, leb,
  if◌then◌else◌, get_or_else, lookup, insert, erase,
}

pub record Config : Type 0 where
  pub max_sql_ops : ℕ
  pub max_kv_ops : ℕ
  pub max_broadcasts : ℕ
  pub max_alarms : ℕ
  pub max_hook_after_tool : ℕ
  pub max_hook_before_inference : ℕ
  pub max_hook_before_tool : ℕ
  pub max_inspection_ops : ℕ

abbrev pub default_budget : Config
default_budget = record {
  max_sql_ops = 100;
  max_kv_ops = 50;
  max_broadcasts = 200;
  max_alarms = 5;
  max_hook_after_tool = 200;
  max_hook_before_inference = 100;
  max_hook_before_tool = 200;
  max_inspection_ops = 50;
}

pub data Category : Type 0 where
  sql kv broadcast alarm : Category
  hook_after_tool hook_before_inference hook_before_tool inspection : Category

unfoldable pub Category-discrete : Discrete Category
Category-discrete = hlevel

instance abbrev pub category_eq : StrictEq Category
category_eq = discrete_eq Category-discrete

-- `BudgetExceededError`.
pub record BudgetExceeded : Type 0 where
  pub category : Category
  pub limit : ℕ

-- `BudgetTracker.counters`, a map of maps.
abbrev pub Counters : Type 0
Counters = List (String × List (Category × ℕ))

unfoldable pub get_limit : Config → Category → ℕ
get_limit c sql = c.max_sql_ops
get_limit c kv = c.max_kv_ops
get_limit c broadcast = c.max_broadcasts
get_limit c alarm = c.max_alarms
get_limit c hook_after_tool = c.max_hook_after_tool
get_limit c hook_before_inference = c.max_hook_before_inference
get_limit c hook_before_tool = c.max_hook_before_tool
get_limit c inspection = c.max_inspection_ops

-- The categories of a nonce, and the counters with an entry for it.
with_nonce : Counters → String → Option (List (Category × ℕ)) → Counters × List (Category × ℕ)
with_nonce counters nonce (some categories) = (counters, categories)
with_nonce counters nonce none = (insert nonce [] counters, [])

unfoldable pub check : Config → Counters → String → Category → Counters × Option BudgetExceeded
unfolding with_nonce
check config counters nonce category =
    let (counters', categories) = with_nonce counters nonce (lookup nonce counters) in
    let current = get_or_else (lookup category categories) 0 in
    let limit = get_limit config category in
    if leb limit current
    then (counters', some (record { category = category; limit = limit }))
    else (insert nonce (insert category (current + 1) categories) counters', none)

unfoldable pub cleanup : Counters → String → Counters
cleanup counters nonce = erase nonce counters
