-- ===== src/Api/V1beta1.antt =====
-- api/v1beta1/auth_config_types.go: the types of the AuthConfig resource, version v1beta1.
pub mod Base
pub mod Evaluators
pub mod Resource
pub use Base.*
pub use Evaluators.*
pub use Resource.*
