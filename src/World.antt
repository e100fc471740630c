-- ===== src/World.antt =====
-- What a call acts on: the gateway library and the network behind it, as an interface over an
-- abstract state, and a world that keeps that state with the client's `closed` flag and the trace of
-- what the package does that others can see.
pub mod Open
use fabricsdk.Base.{ℕ, Bool, Option, none, some, List, [], ◌∷◌, ◌++◌, ℤ, Text}
use fabricsdk.GoError.{GoError}
use fabricsdk.Kinds.{Kind, TxValidationCode}
use fabricsdk.Observe.{Op, CallInfo}
use fabricsdk.Options.{ProposalOption, Ctx}
use fabricsdk.Config.{Identity}
use fabricsdk.Result.{Result}

-- The options of `client.Connect` that the package sets. A nil hash is `none`.
pub record ConnectOptions : Type 0 where
  pub sign : ℕ
  pub connection : ℕ
  pub evaluate_timeout : ℤ
  pub endorse_timeout : ℤ
  pub submit_timeout : ℤ
  pub commit_status_timeout : ℤ
  pub tls_certificate_hash : Option Text

-- The options of `grpc.NewClient`: the root certificates, the server name and the client's certificate
-- of the TLS credentials, and the values that are passed on.
pub record DialOptions : Type 0 where
  pub root_certs : Text
  pub server_name : Text
  pub certificate : Option Text
  pub keep_alive : Option ℕ
  pub dial_options : List ℕ

-- `network.GetContract` or `GetContractWithName`, of a channel.
pub record Target : Type 0 where
  pub channel : Text
  pub chaincode : Text
  pub contract : Option Text

-- The options of a stream: `client.WithStartBlock` and `client.WithCheckpoint`.
pub data StreamOption : Type 0 where
  with_start_block with_checkpoint : ℕ → StreamOption

-- `client.Status` of a commit.
pub record CommitStatus : Type 0 where
  pub successful : Bool
  pub code : TxValidationCode
  pub block_number : ℕ

-- The gateway library over a state `N`. Gateways, proposals, transactions and commits are handles.
pub record GatewayApi (N : Type 0) : Type 0 where
  pub now : N → ℕ
  pub connect : Identity → ConnectOptions → N → Result ℕ × N
  pub close : ℕ → N → Option GoError × N
  pub close_connection : ℕ → N → Option GoError × N
  pub close_signer : ℕ → N → Option GoError × N
  pub new_client : Text → DialOptions → N → Result ℕ × N
  pub new_proposal : ℕ → Target → Text → List ProposalOption → N → Result ℕ × N
  pub transaction_id : ℕ → Text
  pub evaluate : Ctx → ℕ → N → Result Text × N
  pub endorse : Ctx → ℕ → N → Result ℕ × N
  pub payload : ℕ → Text
  pub submit : Ctx → ℕ → N → Result ℕ × N
  -- The events of a chaincode on a channel, and the blocks of a channel; a context is passed too.
  pub chaincode_events : Ctx → ℕ → Text → Text → List StreamOption → N → Result ℕ × N
  pub block_events : Ctx → ℕ → Text → List StreamOption → N → Result ℕ × N
  -- The options that a channel of events or of blocks was opened with.
  pub options_of : ℕ → N → List StreamOption
  pub commit_status : Ctx → ℕ → N → Result CommitStatus × N

-- One visible action: a gateway opened or closed, a connection made or closed, the
-- session of a signer opened or closed, a call of the observer, a line in the error log
-- with its operation, function, transaction and kind, a line about a commit with its block, and one
-- about a stream that ended, with its chaincode if it has one, the block of the checkpointer and the
-- delay before the next, and a line about a client that is ready, with its peer, MSP ID, channel and
-- chaincode.
pub data Event : Type 0 where
  opened closed : ℕ → Event
  dialled disconnected : ℕ → Event
  signer_opened signer_closed : ℕ → Event
  observed : CallInfo → Event
  failed : Op → Text → Text → Kind → Event
  committed : Text → Text → ℕ → Event
  stream_ended : Option Text → ℕ → ℤ → Event
  ready : Text → Text → Text → Text → Event

pub record World (N : Type 0) : Type 0 where
  pub is_closed : Bool
  pub trace : List Event
  pub net : N

-- Adds to the trace.
abbrev pub emit : {N : Type 0} → Event → World N → World N
emit e w = record w { trace = w.trace ++ (e ∷ []) }

-- A call of the library.
abbrev pub lift : {N A : Type 0} → (N → A × N) → World N → A × World N
lift f w = let (a, n) = f w.net in (a, record w { net = n })
