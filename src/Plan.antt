-- ===== src/Plan.antt =====
-- Multi-step plans: agent/plan_models.py, agent/plan_validator.py, agent/plan_executor.py.
pub mod Models
pub mod Graph
pub mod Arguments
pub mod Validator
pub mod Review
pub mod Executor
