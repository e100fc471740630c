-- ===== src/Libs.antt =====
-- What the package takes from gRPC and the Fabric protobuf packages: a status, its conversion from
-- an error, and the names of validation codes. They are a parameter of every definition that uses
-- them, with the documented behaviour of `status.New` as the laws.
use fabricsdk.Base.{◌≡◌, List, [], Text}
use fabricsdk.Kinds.{GrpcCode, TxValidationCode}
use fabricsdk.GoError.{GoError, ErrorDetail}

-- One of `st.Details()`: a `*gateway.ErrorDetail`, by its getters, or a message of another type.
pub data Detail : Type 0 where
  gateway_detail : ErrorDetail → Detail
  other_detail : Detail

-- A `*status.Status`, by its accessors.
pub record Status : Type 0 where
  pub code : GrpcCode
  pub message : Text
  pub details : List Detail

pub record Libs : Type 0 where
  -- `status.Convert` and `status.New`.
  pub convert : GoError → Status
  pub new_status : GrpcCode → Text → Status
  -- `peer.TxValidationCode_name` and the code in decimal.
  pub tx_code_name : TxValidationCode → Text
  pub tx_code_number : TxValidationCode → Text

pub record LibsLaws (l : Libs) : Type 0 where
  pub code-new_status : (c : GrpcCode) (m : Text) → (l.new_status c m).code ≡ c
  pub message-new_status : (c : GrpcCode) (m : Text) → (l.new_status c m).message ≡ m
  pub details-new_status : (c : GrpcCode) (m : Text) → (l.new_status c m).details ≡ []
