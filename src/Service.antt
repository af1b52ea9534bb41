-- ===== src/Service.antt =====
-- internal/application/orders: placing an order and asking for its cancellation.
pub mod Place
pub mod Withdraw
