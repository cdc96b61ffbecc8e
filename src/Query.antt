-- ===== src/Query.antt =====
-- src/modules/query: the parameters of a query, its cursor, its SQL and its pages.
pub mod Result
pub mod Sorting
pub mod Parameters
pub mod Predicate
pub mod Patterns
pub mod Cursor
pub mod Repository
pub mod Service
pub mod Paging
mod Tests
