-- ===== src/Lua/Arguments.antt =====
-- The argument checks at the head of the C functions: strings, and no argument behind them.
mod Steps
mod Forms
mod Short
mod Three
mod Four
pub use Steps.*
pub use Forms.*
pub use Short.*
pub use Three.*
pub use Four.*
