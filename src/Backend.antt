-- ===== src/Backend.antt =====
-- dlna/backend: the objects of the library folders, their database, and what is read from the video files.
pub mod Object
pub mod Files
pub mod Like
pub mod Filter
pub mod Table
pub mod Postgres
pub mod Caches
pub mod Service
pub mod Thumbnails
pub mod Examples
