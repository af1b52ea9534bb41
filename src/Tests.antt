-- ===== src/Tests.antt =====
-- Runs of the definitions on concrete values, and the theorems applied to them.
pub mod Orders
pub mod Wallets
pub mod Books
pub mod Matches
pub mod Services
pub mod Systems
pub mod Rankings
pub mod Programs
