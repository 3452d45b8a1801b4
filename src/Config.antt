-- ===== src/Config.antt =====
-- ddb/config: the configuration's values, how they are merged, flattened, overridden from the
-- environment, found on disk, loaded and migrated.
pub mod Value
pub mod Environ
pub mod Flatten
pub mod Merger
pub mod Search
pub mod Migrations
