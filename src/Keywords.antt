-- ===== src/Keywords.antt =====
-- errors.go, `peerSidePhrases` and `legacyKind`: the classification of free text by keywords.
pub mod Phrases
use fabricsdk.Base.{Bool, ◌||◌, List, [], ◌∷◌, Text, codes, exists, if◌then◌else◌}
use fabricsdk.GoStrings.{contains, to_lower}
use fabricsdk.Kinds.{Kind}

abbrev pub peer_side_phrases : List Text
peer_side_phrases =
    codes "make sure the chaincode"
    ∷ codes "error in simulation"
    ∷ codes "could not launch chaincode"
    ∷ codes "failed to execute transaction"
    ∷ codes "transaction returned with failure"
    ∷ codes "channel '"
    ∷ codes "has not been initialized"
    ∷ codes "does not require initialization"
    ∷ codes "is already initialized"
    ∷ codes "access denied"
    ∷ codes "chaincode definition"
    ∷ []

-- The loop over the phrases.
peer_side : Text → Bool
peer_side m = exists (λ p. contains m p) peer_side_phrases

-- The switch, on the text in lower case.
keyword_kind : Text → Kind
keyword_kind m =
    if contains m (codes "version conflict")
    then Kind.conflict
    else if contains m (codes "already exists")
    then Kind.already_exists
    else if contains m (codes "not found") || contains m (codes "does not exist")
    then Kind.not_found
    else if contains m (codes "unauthorized")
        || (contains m (codes "forbidden") || contains m (codes "permission denied"))
    then Kind.unauthorized
    else Kind.unset

unfoldable pub legacy_kind : Text → Kind
unfolding peer_side keyword_kind
legacy_kind msg = let m = to_lower msg in if peer_side m then Kind.unset else keyword_kind m
