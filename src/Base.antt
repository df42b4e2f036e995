-- ===== src/Base.antt =====
-- The names that the other modules share: the libraries', passed on, and those of its children.
mod Test
mod Lists
pub mod Int
pub mod Exec
pub mod Heap
pub mod Result
pub use Test.{ltb, leb, ◌==◌, if◌then◌else◌, ltb→lt, leb→le, Bool-cases, Option-cases}
unfoldable pub use Test.{String-discrete}
pub use Lists.{
  length, take, drop, take-append-drop, length-drop, take_all, All, All-append, All-drop, All-imp,
  lookup-insert,
}
unfoldable pub use Lists.{keep, lookup, insert, insert_all}
