-- ===== src/Mongo.antt =====
-- What the services rely on of Mongoose and MongoDB, which are not part of the repository: the
-- operations of a `Model`, over the documents of a collection listed from the newest to the oldest.
-- The laws are the documented behaviour of each call. `Mongo.InMemory` meets them.
pub mod InMemory
pub mod Defs
pub use Defs.*
