-- ===== src/Keywords/Phrases.antt =====
-- When keywords classify a message, and as what.
use fabricsdk.Base.{
  ◌≡◌, ◌⊎◌, refl, inl, inr, Bool, true, false, ◌||◌, List, [], ◌∷◌, Text, codes, arith, text_eq,
  text_eq_iff, if◌then◌else◌, exists, Bool-cases,
}
use fabricsdk.GoStrings.{contains, to_lower}
use fabricsdk.GoStrings.Parts.{Occurs, contains_iff}
use fabricsdk.Kinds.{Kind}
use fabricsdk.Keywords.{peer_side_phrases, peer_side, keyword_kind, legacy_kind}

exists_found :
    (test : Text → Bool) (p : Text) (l : List Text)
    → exists (text_eq p) l ≡ true
    → test p ≡ true
    → exists test l ≡ true
exists_found test p [] h t = h
exists_found test p (x ∷ l) h t = elim (Bool-cases (text_eq p x)) [
  | inl e ↦ rw (rw ((text_eq_iff p x).0 e) at t) refl
  | inr n ↦ ground (arith, exists_found test p l)
]

-- A message in which, in lower case, a peer-side phrase occurs is not classified by keywords.
pub legacy_kind-peer_side :
    (msg p : Text)
    → exists (text_eq p) peer_side_phrases ≡ true
    → Occurs p (to_lower msg)
    → legacy_kind msg ≡ Kind.unset
unfolding legacy_kind
legacy_kind-peer_side msg p h occ =
    rw
      (exists_found (contains (to_lower msg)) p peer_side_phrases h
        ((contains_iff (to_lower msg) p).1 occ))
      refl

-- What occurs in a text that keywords classify as of a kind.
abbrev pub Evidence : Kind → Text → Type 0
Evidence Kind.conflict m = Occurs (codes "version conflict") m
Evidence Kind.already_exists m = Occurs (codes "already exists") m
Evidence Kind.not_found m = Occurs (codes "not found") m ⊎ Occurs (codes "does not exist") m
Evidence Kind.unauthorized m =
    Occurs (codes "unauthorized") m
    ⊎ (Occurs (codes "forbidden") m ⊎ Occurs (codes "permission denied") m)
Evidence Kind.unset m = Unit
Evidence k m = ⊥

if-Evidence :
    (m : Text) (b : Bool) (k j : Kind)
    → (b ≡ true → Evidence k m)
    → Evidence j m
    → Evidence (if b then k else j) m
if-Evidence m true k j f g = f refl
if-Evidence m false k j f g = g

or-cases : (a b : Bool) → (a || b) ≡ true → (a ≡ true) ⊎ (b ≡ true)
or-cases a b h = ground arith

occurs : (m p : Text) → contains m p ≡ true → Occurs p m
occurs m p = (contains_iff m p).0

either : {A B : Type 0} (a b : Bool) → (a ≡ true → A) → (b ≡ true → B) → (a || b) ≡ true → A ⊎ B
either a b f g h = elim (or-cases a b h) [ inl x ↦ inl (f x) | inr y ↦ inr (g y) ]

keyword_kind-Evidence : (m : Text) → Evidence (keyword_kind m) m
unfolding keyword_kind
keyword_kind-Evidence m = if-Evidence m _ _ _ (occurs m _) (
    if-Evidence m _ _ _ (occurs m _) (
      if-Evidence m _ _ _ (either _ _ (occurs m _) (occurs m _))
        (if-Evidence m _ _ _ (either _ _ (occurs m _) (either _ _ (occurs m _) (occurs m _))) tt)))

-- `legacyKind` gives a message only the kinds conflict, already exists, not found and unauthorized, or
-- none, and each kind only with one of its keywords in the message in lower case.
pub legacy_kind-Evidence : (msg : Text) → Evidence (legacy_kind msg) (to_lower msg)
unfolding legacy_kind
legacy_kind-Evidence msg = elim (Bool-cases (peer_side (to_lower msg))) [
  | inl h ↦ rw h tt
  | inr h ↦ rw h (keyword_kind-Evidence (to_lower msg))
]
