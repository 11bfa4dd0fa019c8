-- ===== src/Translate/Website.antt =====
-- pkg/translate/gcs_website.go. A nil pointer is `none`.
use s3proxy4gcs.Base.{
  ◌≡◌, ◌&&◌, Option, none, some, [], Text, text_eq, text_eq_iff, arith, if◌then◌else◌,
}
use s3proxy4gcs.Translate.S3.{IndexDocument, ErrorDocument, WebsiteConfiguration}
use s3proxy4gcs.Translate.Gcs.{BucketWebsite}

abbrev suffix_of : Option IndexDocument → Text
suffix_of none = []
suffix_of (some d) = d.suffix

abbrev key_of : Option ErrorDocument → Text
key_of none = []
key_of (some d) = d.key

unfoldable pub translate_s3_to_gcs_website : WebsiteConfiguration → BucketWebsite
translate_s3_to_gcs_website s3_cfg = record {
  main_page_suffix = suffix_of s3_cfg.index_document;
  not_found_page = key_of s3_cfg.error_document;
}

unfoldable pub translate_gcs_to_s3_website : Option BucketWebsite → Option WebsiteConfiguration
translate_gcs_to_s3_website none = none
translate_gcs_to_s3_website (some g) =
    if text_eq g.main_page_suffix [] && text_eq g.not_found_page []
    then none
    else some (record {
      index_document =
          if text_eq g.main_page_suffix []
          then none
          else some (record { suffix = g.main_page_suffix });
      error_document =
          if text_eq g.not_found_page [] then none else some (record { key = g.not_found_page });
    })

-- A website of GCS that an S3 client can read is written back as it was.
pub translate_s3_to_gcs_website-translate_gcs_to_s3_website :
    (g : BucketWebsite) {w : WebsiteConfiguration}
    → translate_gcs_to_s3_website (some g) ≡ some w
    → translate_s3_to_gcs_website w ≡ g
unfolding translate_gcs_to_s3_website translate_s3_to_gcs_website
translate_s3_to_gcs_website-translate_gcs_to_s3_website g h =
    ground (arith, text_eq_iff g.main_page_suffix [], text_eq_iff g.not_found_page [])
