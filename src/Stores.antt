-- ===== src/Stores.antt =====
-- What the program uses of MongoDB (through Mongoose) and of Redis (through ioredis): interfaces
-- with the documented behaviour of the calls. The services take them as parameters. InMemory and
-- Memory have a value of each.
pub mod Collection
pub mod Hashes
pub mod Strings
pub mod InMemory
pub mod Memory
