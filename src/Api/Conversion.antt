-- ===== src/Api/Conversion.antt =====
-- api/v1beta2/auth_config_conversion.go: the conversion of an AuthConfig from v1beta2 to v1beta1, the
-- version that is stored, and back.
pub mod Maps
pub mod Base
pub mod Authentication
pub mod Evaluators
pub mod Responses
pub mod Status
pub mod Resource
pub mod Roundtrip
pub mod Dispatch
