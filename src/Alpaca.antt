-- ===== src/Alpaca.antt =====
-- The Alpaca broker of agent-core/zone-b/execution-motor/execution_motor: alpaca.py and
-- alpaca_parse.py, with every HTTP answer as an argument.
pub mod Endpoint
pub mod Parse
pub mod Client
pub mod Bounded
pub mod Contract
mod Tests
