-- ===== src/Tools.antt =====
-- Tools and the registry: tools/base.py, tools/registry.py, agent/policy.py, agent/dispatcher.py.
pub mod Registry
