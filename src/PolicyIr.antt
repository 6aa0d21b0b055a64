-- ===== src/PolicyIr.antt =====
-- internal/policyir: the intermediate representation of one tenant's policies.
pub mod Unsupported
pub mod Operand
pub mod Token
pub mod Pattern
pub mod Cond
pub mod Tree
mod Examples
