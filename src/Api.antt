-- ===== src/Api.antt =====
-- api/v1beta1 and api/v1beta2: the AuthConfig resource in its two versions, and the conversion
-- between them.
pub mod Kube
pub mod V1beta1
pub mod V1beta2
pub mod Conversion
mod Tests
