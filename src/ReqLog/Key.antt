-- ===== src/ReqLog/Key.antt =====
-- The access key of a line of the request log (`ExtractAccessKey`), beside the one that the gate
-- reads (pkg/credstore/credstore.go).
use s3proxy4gcs.Base.{
  ◌≡◌, ◌≢◌, refl, ◌∙◌, ap, true, some, [], ◌∷◌, ◌++◌, Text, codes, arith, cut_prefix, after_first,
  trim_left, All, Option-cases, inl, inr,
}
use s3proxy4gcs.Http.{Request, get_header}
use s3proxy4gcs.CredStore.{extract_access_key}
use s3proxy4gcs.CredStore.Extract.{before_slash-eq-some, extract_access_key-eq-some}
use s3proxy4gcs.ReqLog
use s3proxy4gcs.ReqLog.{is_key_byte, is_re_space, span_key, match_key, find_credential, header_key}

-- A key that the log's regular expression matches as a whole.
abbrev pub HasKeyBytes : Text → Type 0
HasKeyBytes = All (λ c. is_key_byte c ≡ true)

span_key-append :
    (ak after : Text) → HasKeyBytes ak → span_key (ak ++ b'/' ∷ after) ≡ (ak, b'/' ∷ after)
unfolding span_key
span_key-append [] after h = refl
span_key-append (c ∷ ak) after (p, h) = rw (p, span_key-append ak after h) refl

match_key-append :
    (ak after : Text) → ak ≢ [] → HasKeyBytes ak → match_key (ak ++ b'/' ∷ after) ≡ some ak
unfolding match_key trim_left
match_key-append [] after filled h = absurd (filled refl)
match_key-append (c ∷ ak) after filled (p, h) =
    ground (arith, span_key-append (c ∷ ak) after (p, h))

-- The leftmost match is the one behind the first `Credential=`, if there is a match there.
find_credential-after_first :
    (s rest ak : Text)
    → after_first (codes "Credential=") s ≡ some rest
    → match_key rest ≡ some ak
    → find_credential s ≡ some ak
unfolding find_credential after_first
find_credential-after_first [] rest ak found here = unfold cut_prefix in ground arith
find_credential-after_first (c ∷ s) rest ak found here =
    elim (Option-cases (cut_prefix (codes "Credential=") (c ∷ s))) [
      | inl missed ↦
          ground
            (arith, missed, find_credential-after_first s rest ak (ground (arith, missed)) here)
      | inr (rest', hit) ↦ ground (arith, hit, here)
    ]

-- If the gate reads an access key from the Authorization header of a request, and the key has no
-- slash, comma or white space, the log names the same key.
pub extract_access_key-agrees :
    (r : Request) (ak : Text)
    → extract_access_key (get_header r.header (codes "authorization")) ≡ some ak
    → HasKeyBytes ak
    → ReqLog.extract_access_key r ≡ ak
unfolding ReqLog.extract_access_key header_key
extract_access_key-agrees r ak read bytes =
    let auth = get_header r.header (codes "authorization") in
    let (rest, found, key) = extract_access_key-eq-some auth ak read in
    let ((filled, lacks), (after, same)) = before_slash-eq-some rest ak key in
    let here : match_key rest ≡ some ak =
      ap match_key same ∙ match_key-append ak after filled bytes in
    let hit = find_credential-after_first auth rest ak found here in ground (arith, hit)
