-- ===== src/Fixture.antt =====
-- tobiko/common/_fixture.py
pub mod Shared
pub mod Manager
pub mod Setup
mod Examples
