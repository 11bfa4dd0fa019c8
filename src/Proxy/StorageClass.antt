-- ===== src/Proxy/StorageClass.antt =====
-- `translateS3StorageClass` of main.go.
use s3proxy4gcs.Base.{◌||◌, Option, none, some, Text, codes, text_eq, if◌then◌else◌}

-- `none` is an unknown class.
unfoldable pub translate_s3_storage_class : Text → Option Text
translate_s3_storage_class sc =
    if text_eq sc (codes "STANDARD") || text_eq sc (codes "REDUCED_REDUNDANCY")
    then some (codes "STANDARD")
    else if text_eq sc (codes "STANDARD_IA") || text_eq sc (codes "ONEZONE_IA")
    then some (codes "NEARLINE")
    else if text_eq sc (codes "GLACIER_IR")
    then some (codes "COLDLINE")
    else if text_eq sc (codes "GLACIER") || text_eq sc (codes "DEEP_ARCHIVE")
    then some (codes "ARCHIVE")
    else if text_eq sc (codes "INTELLIGENT_TIERING")
    then some (codes "AUTOCLASS")
    else none
