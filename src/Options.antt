-- ===== src/Options.antt =====
-- client.go: the options of a call, and the deadline of its context.
pub mod Order
use fabricsdk.Base.{
  ℕ, ◌+◌, Bool, false, Option, none, some, List, [], ◌∷◌, ◌++◌, ℤ, pos, negsuc, Text, if◌then◌else◌,
  ◌==◌,
}

-- The struct `callOptions`; a nil map of transient data is `none`.
pub record CallOptions : Type 0 where
  pub args : List Text
  pub transient : Option (List (Text × Text))
  pub orgs : List Text

-- `CallOption`, by the four functions that make one: Args, BytesArgs, Transient, EndorsingOrgs.
pub data CallOption : Type 0 where
  args bytes_args : List Text → CallOption
  transient : Option (List (Text × Text)) → CallOption
  endorsing_orgs : List Text → CallOption

-- What the function behind an option does. A string argument is appended as its bytes.
unfoldable pub apply_option : CallOption → CallOptions → CallOptions
apply_option (args xs) o = record o { args = o.args ++ xs }
apply_option (bytes_args xs) o = record o { args = o.args ++ xs }
apply_option (transient m) o = record o { transient = m }
apply_option (endorsing_orgs xs) o = record o { orgs = o.orgs ++ xs }

unfoldable pub apply_options : List CallOption → CallOptions → CallOptions
unfolding apply_option
apply_options [] o = o
apply_options (f ∷ fs) o = apply_options fs (apply_option f o)

-- The gateway's proposal options that the package uses.
pub data ProposalOption : Type 0 where
  bytes_arguments : List Text → ProposalOption
  with_transient : List (Text × Text) → ProposalOption
  endorsing_organizations : List Text → ProposalOption

abbrev pub transient_options : Option (List (Text × Text)) → List ProposalOption
transient_options none = []
transient_options (some m) = with_transient m ∷ []

abbrev pub org_options : List Text → List ProposalOption
org_options [] = []
org_options (x ∷ xs) = endorsing_organizations (x ∷ xs) ∷ []

abbrev pub no_options : CallOptions
no_options = record { args = []; transient = none; orgs = [] }

-- `proposalOptions`.
unfoldable pub proposal_options : List CallOption → List ProposalOption
unfolding apply_options
proposal_options opts =
    let o = apply_options opts no_options in
    bytes_arguments o.args ∷ (transient_options o.transient ++ org_options o.orgs)

-- A context: its deadline, if it has one, and whether it has ended.
pub record Ctx : Type 0 where
  pub deadline : Option ℕ
  pub done : Bool

-- `withDefaultTimeout` at time `now`; `none` is a nil context.
abbrev background : Ctx
background = record { deadline = none; done = false }

abbrev from_nil : Option Ctx → Ctx
from_nil none = background
from_nil (some c) = c

-- The deadline that a duration sets: none for `d <= 0`.
abbrev timeout_at : ℕ → ℤ → Option ℕ
timeout_at now (pos n) = if n == 0 then none else some (now + n)
timeout_at now (negsuc n) = none

abbrev pub or_timeout : ℕ → ℤ → Option ℕ → Option ℕ
or_timeout now d (some t) = some t
or_timeout now d none = timeout_at now d

unfoldable pub with_default_timeout : ℕ → Option Ctx → ℤ → Ctx
with_default_timeout now ctx d =
    let c = from_nil ctx in record c { deadline = or_timeout now d c.deadline }
