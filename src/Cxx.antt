-- ===== src/Cxx.antt =====
-- components/xsp_cxx: the wrappers in C++.
--
-- `Cxx.Tasks` has the tasks of loop.cc, `Cxx.Owners` who owns the handles of ws_client.h and
-- ws_client_handler.cc.
pub mod Tasks
pub mod Pending
pub mod Order
pub mod Loops
pub mod Owners
pub mod Ownership
pub mod Twice
mod Tests
