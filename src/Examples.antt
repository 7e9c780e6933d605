-- ===== src/Examples.antt =====
-- Concrete inputs for the theorems.
pub mod Toy
pub mod Data
pub mod App
pub mod Admin
pub mod Graphite
pub mod Mqtt
pub mod Settings
pub mod Services
pub mod Threads
pub mod System
pub mod History
