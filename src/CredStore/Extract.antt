-- ===== src/CredStore/Extract.antt =====
-- The access key of an Authorization header.
use s3proxy4gcs.Base.{
  ◌≡◌, ◌≢◌, ◌∙◌, ap, some, [], ◌∷◌, ◌++◌, Text, codes, arith, cut, after_first, Lacks, cut-append,
  cut-eq-some, after_first-eq-some, Option-cases, inl, inr, text_eq,
}
use s3proxy4gcs.CredStore.{before_slash, extract_access_key}

-- An access key: not empty, with no slash.
abbrev pub IsKey : Text → Type 0
IsKey ak = (ak ≢ []) × Lacks b'/' ak

pub before_slash-eq-some :
    (s ak : Text)
    → before_slash s ≡ some ak
    → IsKey ak × ((after : Text) × (s ≡ ak ++ b'/' ∷ after))
before_slash-eq-some s ak h = elim (Option-cases (cut b'/' s)) [
  | inl missed ↦ absurd (unfold before_slash in ground (arith, missed))
  | inr ((x, y), found) ↦
      let (same, lacks) = cut-eq-some b'/' s x y found in
      let e : x ≡ ak = unfold before_slash in ground (arith, found) in
      ((unfold before_slash in ground (arith, found), rw (← e) lacks), (y, rw (← e) same))
]

pub before_slash-append : (ak after : Text) → IsKey ak → before_slash (ak ++ b'/' ∷ after) ≡ some ak
unfolding before_slash
before_slash-append ak after (filled, lacks) = ground (arith, cut-append b'/' ak after lacks)

pub extract_access_key-eq-some :
    (header ak : Text)
    → extract_access_key header ≡ some ak
    → (rest : Text) × (after_first (codes "Credential=") header ≡ some rest)
      × (before_slash rest ≡ some ak)
unfolding extract_access_key
extract_access_key-eq-some header ak h =
    elim (Option-cases (after_first (codes "Credential=") header)) [
      | inl missed ↦ absurd (ground (arith, missed))
      | inr (rest, found) ↦ (rest, found, ground (arith, found))
    ]

-- A key that is read from a header is not empty and has no slash, and the header holds it between
-- `Credential=` and a slash.
pub extract_access_key_sound :
    (header ak : Text)
    → extract_access_key header ≡ some ak
    → IsKey ak
      × ((before after : Text) × (header ≡ before ++ (codes "Credential=" ++ (ak ++ b'/' ∷ after))))
extract_access_key_sound header ak h =
    let (rest, found, read) = extract_access_key-eq-some header ak h in
    let (key, (after, same)) = before_slash-eq-some rest ak read in
    let (before, whole) = after_first-eq-some (codes "Credential=") header rest found in
    (key, (before, after, whole ∙ ap (λ t. before ++ (codes "Credential=" ++ t)) same))

-- From a header of the documented form the key is read, whatever follows it.
pub extract_access_key_complete :
    (ak after : Text)
    → IsKey ak
    → extract_access_key (codes "AWS4-HMAC-SHA256 Credential=" ++ (ak ++ b'/' ∷ after)) ≡ some ak
unfolding extract_access_key after_first text_eq
extract_access_key_complete ak after key = before_slash-append ak after key
