-- ===== src/Client/Metadata.antt =====
-- `mergeMetadata` of pkg/client/client.go.
use cluster_monitoring_opera.Base.{
  String, Bool, true, ◌&&◌, not, Option, none, some, or_else, [], ◌∷◌, ◌==◌, string_eq,
  if◌then◌else◌, starts_with, ◌≡◌, arith,
}
use cluster_monitoring_opera.Base.Dict
use cluster_monitoring_opera.Client.{Labels, ObjectMeta}

abbrev pub metadata_prefix : String
metadata_prefix = "monitoring.openshift.io/"

-- The loop that deletes the keys with the prefix.
unfoldable pub drop_owned : Labels → Labels
drop_owned [] = []
drop_owned ((k, v) ∷ m) =
    let rest = drop_owned m in if starts_with k metadata_prefix then rest else (k, v) ∷ rest

unfoldable pub merge_metadata : (Labels → Labels → Labels) → ObjectMeta → ObjectMeta → ObjectMeta
unfolding drop_owned
merge_metadata merge required existing = record required {
  annotations = merge required.annotations (drop_owned existing.annotations);
  labels = merge required.labels (drop_owned existing.labels);
}

lookup-drop_owned :
    (k : String) (m : Labels)
    → Dict.lookup k (drop_owned m)
      ≡ (if starts_with k metadata_prefix then none else Dict.lookup k m)
unfolding drop_owned Dict.lookup
lookup-drop_owned k [] = ground arith
lookup-drop_owned k (_ ∷ m) = ground (arith, lookup-drop_owned k m)

-- A value that is missing or empty.
abbrev pub is_empty : Option String → Bool
is_empty none = true
is_empty (some v) = v == ""

-- What mergo documents of a merge of maps: an entry of the source is taken where the destination
-- has none, or an empty one.
pub record IsMergo (merge : Labels → Labels → Labels) : Type 0 where
  pub lookup-merge :
      (k : String) (dst src : Labels)
      → Dict.lookup k (merge dst src) ≡ (
          if is_empty (Dict.lookup k dst)
          then or_else (Dict.lookup k src) (Dict.lookup k dst)
          else Dict.lookup k dst)

module _ (merge : Labels → Labels → Labels) (mergo : IsMergo merge) where
  -- With mergo: a label that the new object sets to a text is kept; one that it lacks or leaves
  -- empty comes from the existing object, unless the operator owns its key. So a stale label of the
  -- operator does not come back.
  pub merge_metadata_labels :
      (k : String) (required existing : ObjectMeta)
      → Dict.lookup k (merge_metadata merge required existing).labels ≡ (
          if is_empty (Dict.lookup k required.labels) && not (starts_with k metadata_prefix)
          then or_else (Dict.lookup k existing.labels) (Dict.lookup k required.labels)
          else Dict.lookup k required.labels)
  unfolding merge_metadata or_else
  merge_metadata_labels k required existing = ground (
    arith,
    mergo.lookup-merge k required.labels (drop_owned existing.labels),
    lookup-drop_owned k existing.labels,
  )

  -- With mergo: an annotation that the new object sets to a text is kept; one that it lacks or
  -- leaves empty comes from the existing object, unless the operator owns its key.
  pub merge_metadata_annotations :
      (k : String) (required existing : ObjectMeta)
      → Dict.lookup k (merge_metadata merge required existing).annotations ≡ (
          if is_empty (Dict.lookup k required.annotations) && not (starts_with k metadata_prefix)
          then or_else (Dict.lookup k existing.annotations) (Dict.lookup k required.annotations)
          else Dict.lookup k required.annotations)
  unfolding merge_metadata or_else
  merge_metadata_annotations k required existing = ground (
    arith,
    mergo.lookup-merge k required.annotations (drop_owned existing.annotations),
    lookup-drop_owned k existing.annotations,
  )
