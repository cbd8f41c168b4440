-- ===== src/Aws.antt =====
-- internal/aws: the explanation of AWS errors, and lists that come in pages.
pub mod Messages
pub mod Errors
pub mod Pages
