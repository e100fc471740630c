-- ===== src/Tests/Settings.antt =====
-- Configurations, endpoints and options at concrete values.
use fabricsdk.Base.{◌≡◌, ◌↔◌, refl, true, none, codes}
use fabricsdk.Config.{validate, with_defaults, grpc_target}
use fabricsdk.Config.Valid.{IsValid, validate_iff}
use fabricsdk.Config.Defaults.{validate-with_defaults}
use fabricsdk.Config.Endpoint.{grpc_target_idem}
use fabricsdk.Tests.Sample.{config}

config-IsValid : IsValid config true
unfolding validate fabricsdk.GoStrings.trim_space
config-IsValid = (validate_iff config true).0 refl

validate_iff_example : (validate config true ≡ none) ↔ IsValid config true
validate_iff_example = validate_iff config true

validate-with_defaults_example : validate (with_defaults config) true ≡ validate config true
validate-with_defaults_example = validate-with_defaults config true

grpc_target_idem_example :
    grpc_target (grpc_target (codes "peer0:7051")) ≡ grpc_target (codes "peer0:7051")
grpc_target_idem_example = grpc_target_idem (codes "peer0:7051")
