-- ===== src/Api/V1beta2.antt =====
-- api/v1beta2/auth_config_types.go: the types of the AuthConfig resource, version v1beta2.
pub mod Base
pub mod Evaluators
pub mod Resource
pub use Base.*
pub use Evaluators.*
pub use Resource.*
