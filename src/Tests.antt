-- ===== src/Tests.antt =====
-- Concrete third-party packages, tests that evaluate the model, and instances of its theorems.
pub mod Packages
pub mod Bitmaps
pub mod Databases
pub mod Encodings
mod Sketches
mod Engines
mod Rings
mod Commands
mod Nodes
mod Servers
mod Closings
mod Restarts
mod Failures
mod Processes
mod Loops
mod Cycles
mod Scrapes
