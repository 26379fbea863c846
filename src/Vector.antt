-- ===== src/Vector.antt =====
-- src/models/ and src/vector/: the vector database.
pub mod Numbers
pub mod Values
pub mod Model
pub mod Bytes
pub mod RoundTrip
pub mod Bounds
pub mod Metadata
pub mod Distance
pub mod LinearIndex
pub mod Nearest
pub mod Collection
pub mod Atomic
pub mod Processor
pub mod Paging
pub mod Erased
pub mod Filters
pub mod Paths
pub mod Api
pub mod Kept
pub mod Routes
mod Tests
