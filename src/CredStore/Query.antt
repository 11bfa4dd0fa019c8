-- ===== src/CredStore/Query.antt =====
-- The access key of a presigned URL.
use s3proxy4gcs.Base.{
  suc, ◌≡◌, refl, ◌∙◌, sym, none, some, Option, true, false, List, [], ◌∷◌, Text, arith, cut, split,
  Option-cases, inl, inr, length, Bool, codes, Verdict, go_on, give, first_verdict,
  scan-first_verdict, equal_fold, if◌then◌else◌,
}
use s3proxy4gcs.CredStore.{
  replace_escape, before_slash, read_segment, query_loop, extract_access_key_from_query,
}
use s3proxy4gcs.CredStore.Extract.{IsKey, before_slash-eq-some}

read_segment-nil : read_segment [] ≡ go_on
unfolding read_segment cut
read_segment-nil = refl

-- The scan for the access key of a presigned URL never runs out of its fuel: it gives what the
-- first credential parameter among the segments between the ampersands gives, for every query.
pub extract_access_key_from_query_lem :
    (query : Text)
    → extract_access_key_from_query query ≡ first_verdict none read_segment (split query b'&')
unfolding extract_access_key_from_query query_loop
extract_access_key_from_query_lem query =
    scan-first_verdict none read_segment read_segment-nil (suc (length query)) query (omega arith)

abbrev IsKeyVerdict : Verdict (Option Text) → Type 0
IsKeyVerdict go_on = Unit
IsKeyVerdict (give o) = (ak : Text) → o ≡ some ak → IsKey ak

read_segment-IsKeyVerdict : (seg : Text) → IsKeyVerdict (read_segment seg)
unfolding read_segment
read_segment-IsKeyVerdict seg = elim (Option-cases (cut b'=' seg)) [
  | inl missed ↦ rw (missed, read_segment) tt
  | inr ((name, val), found) ↦
      rw (found, read_segment)
        (named (equal_fold name (codes "X-Amz-Credential"))
          (before_slash (replace_escape b'f' (replace_escape b'F' val)))
          λ ak e. (before_slash-eq-some _ ak e).0)
]
  where
    named :
        (b : Bool) (o : Option Text)
        → ((ak : Text) → o ≡ some ak → IsKey ak)
        → IsKeyVerdict (if b then give o else go_on)
    named true o h = h
    named false o h = tt

first_verdict-IsKey :
    (segs : List Text) (ak : Text) → first_verdict none read_segment segs ≡ some ak → IsKey ak
unfolding first_verdict
first_verdict-IsKey [] ak h = absurd (ground arith)
first_verdict-IsKey (seg ∷ segs) ak h =
    go (read_segment seg) (read_segment-IsKeyVerdict seg) (first_verdict-IsKey segs ak) h
  where
    go :
        (v : Verdict (Option Text))
        → IsKeyVerdict v
        → (first_verdict none read_segment segs ≡ some ak → IsKey ak)
        → (elim v [ go_on ↦ first_verdict none read_segment segs | give o ↦ o ]) ≡ some ak
        → IsKey ak
    go go_on k ih e = ih e
    go (give o) k ih e = k ak e

-- A key that is read from a query is not empty and has no slash.
pub extract_access_key_from_query-IsKey :
    (query ak : Text) → extract_access_key_from_query query ≡ some ak → IsKey ak
extract_access_key_from_query-IsKey query ak h =
    first_verdict-IsKey (split query b'&') ak (sym (extract_access_key_from_query_lem query) ∙ h)
