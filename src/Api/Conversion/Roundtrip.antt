-- ===== src/Api/Conversion/Roundtrip.antt =====
-- api/v1beta2/auth_config_conversion.go: an AuthConfig that goes from v1beta2 to v1beta1 and back.
pub mod Maps
pub mod Values
pub mod Authentication
pub mod Metadata
pub mod Authorization
pub mod Responses
pub mod ResponseSpec
pub mod Resource
