-- ===== src/S3.antt =====
-- internal/s3server: the S3-compatible surface.
pub mod Range
pub mod Multipart
pub mod Signing
