-- ===== src/TokenCache.antt =====
-- pkg/api/s21_token_cache.go: the in-memory cache of validated tokens. The map holds pointers to the
-- elements of the recency list, and `heap` is what those elements hold: a pointer is a number, and
-- `next` is the first that has not been allocated. Each method holds the mutex throughout, and reads
-- the clock at most once; that reading is its argument `now`.
pub mod Defs
pub mod Recency
pub mod Pointers
pub mod Links
pub mod Evict
pub mod Refines
pub mod Writes
pub mod Trust
pub mod Kept
