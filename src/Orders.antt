-- ===== src/Orders.antt =====
-- Orders: the lifecycle of core/order_state.py, the tables of core/db_orders.py and the manager of
-- core/order_manager.py.
pub mod Status
pub mod Row
pub mod Store
pub mod Manager
pub mod Tests
