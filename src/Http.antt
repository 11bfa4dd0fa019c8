-- ===== src/Http.antt =====
-- The parts of net/http that the handlers read. The names of headers are in lower case; a header
-- has its first value. The query is given in both forms: raw, and as `URL.Query()` parses it.
use s3proxy4gcs.Base.{Bool, true, false, Option, none, some, Text, Dict, codes, lookup}

pub data Method : Type 0 where
  get head put post delete : Method
  other_method : Text → Method

abbrev pub is_get : Method → Bool
is_get get = true
is_get _ = false

abbrev pub is_head : Method → Bool
is_head head = true
is_head _ = false

abbrev pub is_put : Method → Bool
is_put put = true
is_put _ = false

abbrev pub is_post : Method → Bool
is_post post = true
is_post _ = false

abbrev pub is_delete : Method → Bool
is_delete delete = true
is_delete _ = false

-- What the client sends; `broken` if the connection fails behind it.
pub record RequestBody : Type 0 where
  pub sent : Text
  pub broken : Bool

-- `aws.Credentials`.
pub record Credentials : Type 0 where
  pub access_key_id : Text
  pub secret_access_key : Text

-- A request, with the credentials that its context carries under `resolvedCredsKey`.
pub record Request : Type 0 where
  pub method : Method
  pub host : Text
  pub remote_addr : Text
  pub path : Text
  pub raw_path : Text
  pub raw_query : Text
  pub query : Dict Text
  pub header : Dict Text
  pub body : RequestBody
  pub resolved_creds : Option Credentials

-- `Header.Get(k)`, which is empty where there is no such header.
unfoldable pub get_header : Dict Text → Text → Text
unfolding lookup
get_header h k = elim (lookup k h) [ none ↦ codes "" | some v ↦ v ]

-- `Values.Get(k)`, which is empty where there is no such parameter.
unfoldable pub get_query : Dict Text → Text → Text
unfolding lookup
get_query q k = elim (lookup k q) [ none ↦ codes "" | some v ↦ v ]
