-- ===== src/Translate/Tagging/Patch.antt =====
-- What the contexts patch of a tagging request does to the contexts of an object.
use s3proxy4gcs.Base.{
  ◌≡◌, refl, Option, none, some, List, [], ◌∷◌, Text, text_eq, text_eq_iff, Dict, lookup, insert,
  lookup-insert, HasDistinctKeys, is_some, arith, if◌then◌else◌,
}
use s3proxy4gcs.Translate.S3.{Tag, Tagging}
use s3proxy4gcs.Translate.Gcs.{ContextPayload, ObjectContexts}
use s3proxy4gcs.Translate.Tagging.{
  delete_marker, upsert, mark_deleted, upsert_tags, custom_of, translate_s3_to_gcs_contexts,
  tags_of, translate_gcs_contexts_to_s3_tagging,
}

-- The value that a tag set gives a key: that of its last tag with the key.
abbrev pub tag_value : Text → List Tag → Option Text
tag_value k [] = none
tag_value k (t ∷ ts) = elim (tag_value k ts) [
  | none ↦ if text_eq t.key k then some t.value else none
  | some v ↦ some v
]

lookup-mark_deleted :
    (k : Text) (m custom : Dict ContextPayload)
    → lookup k (mark_deleted m custom)
      ≡ (if is_some (lookup k m) then some delete_marker else lookup k custom)
unfolding mark_deleted lookup
lookup-mark_deleted k [] custom = refl
lookup-mark_deleted k ((j, p) ∷ m) custom = ground (
  arith,
  lookup-mark_deleted k m (insert j delete_marker custom),
  lookup-insert j k delete_marker custom,
)

lookup-upsert_tags :
    (k : Text) (ts : List Tag) (custom : Dict ContextPayload)
    → lookup k (upsert_tags ts custom)
      ≡ elim (tag_value k ts) [ none ↦ lookup k custom | some v ↦ some (upsert v) ]
unfolding upsert_tags
lookup-upsert_tags k [] custom = refl
lookup-upsert_tags k (t ∷ ts) custom = ground (
  arith,
  lookup-upsert_tags k ts (insert t.key (upsert t.value) custom),
  lookup-insert t.key k (upsert t.value) custom,
)

lookup-nil : (k : Text) → lookup {V = ContextPayload} k [] ≡ none
unfolding lookup
lookup-nil k = refl

-- What the patch holds for a key that the tag set gives no value.
abbrev pub marker_for : Option ContextPayload → Option ContextPayload
marker_for none = none
marker_for (some p) = some delete_marker

-- The patch of a tagging request: a key of the tag set is set to the value of its last tag, any
-- other key that the object has is marked as deleted, and no other key is touched.
pub lookup-translate_s3_to_gcs_contexts :
    (k : Text) (s : Tagging) (existing : Option ObjectContexts)
    → lookup k (translate_s3_to_gcs_contexts s existing).custom ≡ elim (tag_value k s.tag_set) [
      | none ↦ marker_for (lookup k (custom_of existing))
      | some v ↦ some (upsert v)
    ]
unfolding translate_s3_to_gcs_contexts
lookup-translate_s3_to_gcs_contexts k s existing = ground (
  arith,
  lookup-upsert_tags k s.tag_set (mark_deleted (custom_of existing) []),
  lookup-mark_deleted k (custom_of existing) [],
  lookup-nil k,
)

abbrev value_of : Option ContextPayload → Option Text
value_of none = none
value_of (some p) = some p.value

tag_value-tags_of :
    (k : Text) (m : Dict ContextPayload)
    → HasDistinctKeys m
    → tag_value k (tags_of m) ≡ (if text_eq k [] then none else value_of (lookup k m))
unfolding tags_of lookup
tag_value-tags_of k [] h = ground arith
tag_value-tags_of k ((j, p) ∷ m) (fresh, h) =
    ground
      (arith, tag_value-tags_of k m h, text_eq_iff j k, text_eq_iff k [], text_eq_iff j [], fresh)

-- What a patch leaves under a key: an entry marked as deleted is removed, any other is written, and
-- a key that the patch does not name keeps what it has.
abbrev pub patched : Option ContextPayload → Option ContextPayload → Option ContextPayload
patched none old = old
patched (some p) old = if p.delete then none else some p

abbrev pub IsPatched : Dict ContextPayload → Dict ContextPayload → Dict ContextPayload → Type 0
IsPatched patch old new = (k : Text) → lookup k new ≡ patched (lookup k patch) (lookup k old)

-- A client that puts a tag set and gets the object's tags back finds, whatever contexts the object
-- had before, exactly the tags that it put (the last one where it put a key twice), less one with
-- an empty key, if the contexts after the update are those that the patch asks for.
pub get_after_put :
    (k : Text) (s : Tagging) (old new : ObjectContexts)
    → HasDistinctKeys new.custom
    → IsPatched (translate_s3_to_gcs_contexts s (some old)).custom old.custom new.custom
    → tag_value k (translate_gcs_contexts_to_s3_tagging (some new)).tag_set
      ≡ (if text_eq k [] then none else tag_value k s.tag_set)
unfolding translate_gcs_contexts_to_s3_tagging
get_after_put k s old new distinct after = ground (
  arith,
  tag_value-tags_of k new.custom distinct,
  after k,
  lookup-translate_s3_to_gcs_contexts k s (some old),
)
