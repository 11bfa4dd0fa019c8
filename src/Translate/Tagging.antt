-- ===== src/Translate/Tagging.antt =====
-- pkg/translate/gcs_tagging.go. A Go map is an association list; a range over it takes its keys in
-- the order of that list, which is any order.
pub mod Patch
use s3proxy4gcs.Base.{
  Bool, true, false, Option, none, some, List, [], ◌∷◌, Text, text_eq, Dict, insert, if◌then◌else◌,
}
use s3proxy4gcs.Translate.S3.{Tag, Tagging}
use s3proxy4gcs.Translate.Gcs.{ContextPayload, ObjectContexts}

abbrev pub delete_marker : ContextPayload
delete_marker = record { value = []; delete = true }

abbrev pub upsert : Text → ContextPayload
upsert v = record { value = v; delete = false }

-- The first loop: a delete marker for every key of the map.
mark_deleted : Dict ContextPayload → Dict ContextPayload → Dict ContextPayload
mark_deleted [] custom = custom
mark_deleted ((k, p) ∷ m) custom = mark_deleted m (insert k delete_marker custom)

-- The second loop: the new tags.
upsert_tags : List Tag → Dict ContextPayload → Dict ContextPayload
upsert_tags [] custom = custom
upsert_tags (t ∷ ts) custom = upsert_tags ts (insert t.key (upsert t.value) custom)

abbrev pub custom_of : Option ObjectContexts → Dict ContextPayload
custom_of none = []
custom_of (some c) = c.custom

unfoldable pub translate_s3_to_gcs_contexts : Tagging → Option ObjectContexts → ObjectContexts
unfolding mark_deleted upsert_tags
translate_s3_to_gcs_contexts s3_cfg existing = record {
  custom = upsert_tags s3_cfg.tag_set (mark_deleted (custom_of existing) []);
}

tags_of : Dict ContextPayload → List Tag
tags_of [] = []
tags_of ((k, p) ∷ m) =
    let rest = tags_of m in
    if text_eq k [] then rest else record { key = k; value = p.value } ∷ rest

unfoldable pub translate_gcs_contexts_to_s3_tagging : Option ObjectContexts → Tagging
unfolding tags_of
translate_gcs_contexts_to_s3_tagging ctx = record { tag_set = tags_of (custom_of ctx) }
