-- ===== src/Worker.antt =====
-- internal/worker/worker.go: the background passes over the rows of objects and files.
pub mod Reanalysis
pub mod Migration
pub mod Uploads
pub mod Rehash
pub mod Actions
