-- ===== src/Runtime/Driver.antt =====
-- driver.py: `AgentDriver.run`, which drives a run through its effects. The definitions are in the
-- children: the services and the state in Monad, the progress channel in Channel, the loop and its
-- exits in Loop. The other children prove.
pub mod Monad
pub mod Channel
pub mod Loop
pub mod Grammar
pub mod Trace
pub mod Order
pub mod Invariants
pub mod Cleanup
pub mod Observers
pub mod Halting
mod Tests
