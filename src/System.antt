-- ===== src/System.antt =====
-- The gateway as a system: one process of core/gateway.py on the ledger's file, its control plane, its
-- background tasks, and what goes on at the same time. Overlaps says what may happen to the ledger
-- while a request waits for the bank; Runs has the steps of the system.
pub mod Entitlement
pub mod Endpoint
pub mod Overlaps
pub mod Safety
pub mod Startup
pub mod Requests
pub mod Runs
pub mod Ledger
pub mod Hashes
pub mod Breach
mod Tests
