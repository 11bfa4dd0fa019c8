-- ===== src/Translate/Lifecycle/StorageClass.antt =====
-- `mapStorageClass` and `reverseMapStorageClass` of pkg/translate/gcs_lifecycle.go.
use s3proxy4gcs.Base.{◌||◌, Text, codes, text_eq, if◌then◌else◌, ◌≡◌, arith}

unfoldable pub map_storage_class : Text → Text
map_storage_class s3_class =
    if text_eq s3_class (codes "STANDARD_IA")
    then codes "NEARLINE"
    else if text_eq s3_class (codes "ONEZONE_IA")
    then codes "NEARLINE"
    else if text_eq s3_class (codes "INTELLIGENT_TIERING")
    then codes "STANDARD"
    else if text_eq s3_class (codes "GLACIER") || text_eq s3_class (codes "GLACIER_IR")
    then codes "COLDLINE"
    else if text_eq s3_class (codes "DEEP_ARCHIVE")
    then codes "ARCHIVE"
    else codes "STANDARD"

unfoldable pub reverse_map_storage_class : Text → Text
reverse_map_storage_class gcs_class =
    if text_eq gcs_class (codes "NEARLINE")
    then codes "STANDARD_IA"
    else if text_eq gcs_class (codes "COLDLINE")
    then codes "GLACIER"
    else if text_eq gcs_class (codes "ARCHIVE")
    then codes "DEEP_ARCHIVE"
    else if text_eq gcs_class (codes "STANDARD")
    then codes "STANDARD"
    else gcs_class

-- Reading back what a transition was translated to, and translating that again, changes nothing.
pub map_storage_class-reverse_map_storage_class :
    (c : Text)
    → map_storage_class (reverse_map_storage_class (map_storage_class c)) ≡ map_storage_class c
unfolding map_storage_class reverse_map_storage_class text_eq
map_storage_class-reverse_map_storage_class c = ground arith
