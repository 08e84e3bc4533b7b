-- ===== src/Lua.antt =====
-- The Lua C API, as far as lua-extension uses it. The interpreter is not part of the repository: it
-- is the parameter `Lua`, a record of the API's functions with what its manual says of them.
pub mod Value
pub mod Api
pub mod Run
pub mod Laws
pub mod Tables
pub mod Auxlib
pub mod Arguments
pub mod Optional
