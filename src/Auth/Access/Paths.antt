-- ===== src/Auth/Access/Paths.antt =====
-- FerrumGUI/src/authManager.ts: the two patterns that `AuthManager` matches the path of a request by.
use mathlib.Core.Option.{some-injective, none-ne-some}
use ferrum_proxy.Base.{
  Bool-cases, ap₂, subst, ◌≡◌, refl, ap, ◌∙◌, sym, ◌≢◌, ◌↔◌, if◌then◌else◌, not, is_empty, Bool,
  false, ◌&&◌, Text, codes, text_eq, text_eq_iff, text_eq_refl, starts_with, Option, none, some, [],
  ◌∷◌, ◌++◌, inl, inr,
}
use ferrum_proxy.Base.Patterns.{
  strip_prefix, strip_prefix_iff, segment, segment-append, segment-NoSlash, segment-slash, NoSlash,
}

abbrev pub instances_path : Text
instances_path = codes "/api/instances"

abbrev pub instance_prefix : Text
instance_prefix = codes "/api/instances/"

abbrev pub metadata_suffix : Text
metadata_suffix = codes "/public-metadata"

abbrev pub manager_part : Text
manager_part = codes "/manager/"

abbrev pub metadata_match : Text × Text → Option Text
metadata_match (seg, rest) =
    if not (is_empty seg) && text_eq rest metadata_suffix then some seg else none

abbrev pub after_prefix : Option Text → Option Text
after_prefix none = none
after_prefix (some rest) = metadata_match (segment rest)

-- The id in a path that matches `^\/api\/instances\/([^/]+)\/public-metadata$`
unfoldable pub public_metadata_id : Text → Option Text
public_metadata_id path = after_prefix (strip_prefix instance_prefix path)

abbrev pub manager_match : Text × Text → Bool
manager_match (seg, rest) = not (is_empty seg) && starts_with rest manager_part

abbrev pub manager_after : Option Text → Bool
manager_after none = false
manager_after (some rest) = manager_match (segment rest)

-- `^\/api\/instances\/[^/]+\/manager\/`
unfoldable pub is_manager_path : Text → Bool
is_manager_path path = manager_after (strip_prefix instance_prefix path)

metadata_match_sound :
    (seg rest id : Text)
    → metadata_match (seg, rest) ≡ some id
    → (seg ≡ id) × (rest ≡ metadata_suffix) × (id ≢ [])
metadata_match_sound [] rest id e = cc
metadata_match_sound (c ∷ seg) rest id e = elim (Bool-cases (text_eq rest metadata_suffix)) [
  | inl same ↦
      let same_id : c ∷ seg ≡ id = some-injective (c ∷ seg) id (rw same at e) in
      (same_id, (text_eq_iff _ _).0 same, (λ nil. cc))
  | inr other ↦ absurd (none-ne-some id (rw other at e))
]

metadata_match_complete : (id : Text) → id ≢ [] → metadata_match (id, metadata_suffix) ≡ some id
metadata_match_complete [] n = absurd (n refl)
metadata_match_complete (c ∷ id) n = rw (text_eq_refl metadata_suffix)

-- The id of a path that matches is its one segment between the two literals.
pub public_metadata_id_iff :
    (path id : Text)
    → (public_metadata_id path ≡ some id)
      ↔ ((path ≡ instance_prefix ++ (id ++ metadata_suffix)) × NoSlash id × (id ≢ []))
unfolding public_metadata_id
public_metadata_id_iff path id = (to (strip_prefix instance_prefix path) refl, from)
  where
    to :
        (o : Option Text)
        → strip_prefix instance_prefix path ≡ o
        → after_prefix o ≡ some id
        → (path ≡ instance_prefix ++ (id ++ metadata_suffix)) × NoSlash id × (id ≢ [])
    to none same e = absurd (none-ne-some id e)
    to (some rest) same e =
        let (seg, suffix, n) = metadata_match_sound (segment rest).0 (segment rest).1 id e in
        let whole = (strip_prefix_iff instance_prefix path rest).0 same in
        (
          whole ∙ ap (λ t. instance_prefix ++ t) (sym (segment-append rest) ∙ ap₂ ◌++◌ seg suffix),
          subst NoSlash seg (segment-NoSlash rest),
          n,
        )

    from :
        (path ≡ instance_prefix ++ (id ++ metadata_suffix)) × NoSlash id × (id ≢ [])
        → after_prefix (strip_prefix instance_prefix path) ≡ some id
    from (e, plain, n) =
        ap after_prefix ((strip_prefix_iff instance_prefix path (id ++ metadata_suffix)).1 e)
        ∙ ap metadata_match (segment-slash id (codes "public-metadata") plain)
        ∙ metadata_match_complete id n
