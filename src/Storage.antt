-- ===== src/Storage.antt =====
-- Object storage: the adapter of an S3 bucket, and the provisioning of the corpus objects.
pub mod Calls
pub mod S3
pub mod Provision
mod Examples
