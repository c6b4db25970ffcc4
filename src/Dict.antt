-- ===== src/Dict.antt =====
-- The dictionaries that the program keeps: a JavaScript object `{[key: string]: V}` or a `Map`, as
-- the list of its entries in the order in which its keys were first set. Keys that an object
-- inherits from `Object.prototype` (`constructor`, ...) and keys spelled like array indices, which
-- an object lists first, are outside the model.
pub mod Defs
pub mod Laws
pub mod Bulk
