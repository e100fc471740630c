-- ===== src/Options/Order.antt =====
-- What a list of call options amounts to.
use fabricsdk.Base.{
  ◌≡◌, refl, sym, ◌∙◌, Option, none, List, [], ◌∷◌, ◌++◌, append_assoc, append-nil, Text,
}
use fabricsdk.Options.{
  CallOptions, CallOption, args, bytes_args, transient, endorsing_orgs, apply_options, no_options,
  proposal_options, bytes_arguments, transient_options, org_options,
}

-- The arguments, the organizations and the last transient data of a list of options.
abbrev pub all_args : List CallOption → List Text
all_args [] = []
all_args (args xs ∷ fs) = xs ++ all_args fs
all_args (bytes_args xs ∷ fs) = xs ++ all_args fs
all_args (_ ∷ fs) = all_args fs

abbrev pub all_orgs : List CallOption → List Text
all_orgs [] = []
all_orgs (endorsing_orgs xs ∷ fs) = xs ++ all_orgs fs
all_orgs (_ ∷ fs) = all_orgs fs

abbrev pub last_transient :
    Option (List (Text × Text)) → List CallOption → Option (List (Text × Text))
last_transient m [] = m
last_transient m (transient n ∷ fs) = last_transient n fs
last_transient m (_ ∷ fs) = last_transient m fs

apply_options-all :
    (fs : List CallOption) (o : CallOptions)
    → ((apply_options fs o).args ≡ o.args ++ all_args fs)
      × ((apply_options fs o).orgs ≡ o.orgs ++ all_orgs fs)
      × ((apply_options fs o).transient ≡ last_transient o.transient fs)
unfolding apply_options
apply_options-all [] o = (sym (append-nil o.args), sym (append-nil o.orgs), refl)
apply_options-all (args xs ∷ fs) o =
    let (a, b, c) = apply_options-all fs (record o { args = o.args ++ xs }) in
    (a ∙ append_assoc o.args xs _, b, c)
apply_options-all (bytes_args xs ∷ fs) o =
    let (a, b, c) = apply_options-all fs (record o { args = o.args ++ xs }) in
    (a ∙ append_assoc o.args xs _, b, c)
apply_options-all (transient m ∷ fs) o = apply_options-all fs (record o { transient = m })
apply_options-all (endorsing_orgs xs ∷ fs) o =
    let (a, b, c) = apply_options-all fs (record o { orgs = o.orgs ++ xs }) in
    (a, b ∙ append_assoc o.orgs xs _, c)

-- A proposal gets all arguments and all organizations in the order of the options, and the transient
-- data of the last option that sets it; transient data that is nil and an empty list of
-- organizations are left out.
pub proposal_options-all :
    (fs : List CallOption)
    → proposal_options fs
      ≡ bytes_arguments (all_args fs)
        ∷ (transient_options (last_transient none fs) ++ org_options (all_orgs fs))
unfolding proposal_options
proposal_options-all fs = let (a, b, c) = apply_options-all fs no_options in rw a (rw b (rw c))
