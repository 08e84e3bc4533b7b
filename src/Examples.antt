-- ===== src/Examples.antt =====
-- Concrete inputs of the theorems, and tests.
mod Interpreter
mod Calls
mod Instance
mod Checks
mod Console
mod Warnings
mod Scripts
mod Questions
mod Events
mod Passwords
mod Timers
mod Commands
mod Desk
mod Encryption
mod Modules
mod Notes
mod Letters
mod Starts
mod Samples
