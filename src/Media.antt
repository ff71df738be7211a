-- ===== src/Media.antt =====
-- internal/media: the cache of transformed images in memory and on disk, and the parameters of a
-- transform.
pub mod Memory
pub mod Disk
pub mod Params
