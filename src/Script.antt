-- ===== src/Script.antt =====
-- What the packages use of the JavaScript language: texts, numbers, `Map`, `Array.prototype.sort`,
-- and the loop over a `Map` that many of the packages' functions share.
pub mod Text
pub mod Hex
pub mod Number
pub mod Map
pub mod Order
pub mod Sort
pub mod Collation
pub mod Collect
