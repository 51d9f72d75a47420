-- ===== src/ContextBudget.antt =====
-- The context budget of an LLM request (model/llm/context_budget.go): what a message is estimated to
-- cost, how its text is cut, and which messages of a request are kept.
mod Messages
mod Trim
mod Fit
mod Limit
mod Estimates
mod Cuts
mod Selection
mod Request
mod Tests
