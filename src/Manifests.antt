-- ===== src/Manifests.antt =====
-- pkg/manifests: what builds the objects of the stack, in the parts that are not field assignment.
pub mod Numbers
pub mod Reader
pub mod Hashing
pub mod Rotation
pub mod Prometheus
pub mod Image
pub mod Assets
mod Tests
