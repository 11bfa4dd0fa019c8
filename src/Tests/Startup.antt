-- ===== src/Tests/Startup.antt =====
-- From the environment of the process to the request that is signed.
use s3proxy4gcs.Base.{
  trim_space, trim_left, split, ◌≡◌, refl, true, List, ◌++◌, false, Option, none, some, [], ◌∷◌,
  Text, Dict, codes, lookup, insert, pos, text_eq, arith, copy_into,
}
use s3proxy4gcs.Base.Result.{ok}
use s3proxy4gcs.Config.{Settings}
use s3proxy4gcs.Config.Load
use s3proxy4gcs.Config.Env.{Environment, is_true}
use s3proxy4gcs.Config.Load.{legacy, file, load_config}
use s3proxy4gcs.Http.{get, Request}
use s3proxy4gcs.CredStore.{replace, load_file}
use s3proxy4gcs.Proxy.Director.{Outgoing, no_body, Url, Signer, on_header, rewrite_host}
use s3proxy4gcs.Proxy.Director.VirtualHost.{rewrite_host-virtual}
use s3proxy4gcs.Proxy.Startup.{store_after, start}
use s3proxy4gcs.CredStore.Watch.{Event, file_event, debounced, Op, watch, run, step, is_relevant}
use s3proxy4gcs.Tests.Sample.{access_key, secret_key, one_client, signed, object_of_bucket}

-- The variables of a proxy with one pair of keys.
abbrev vars : Dict Text
vars =
    (codes "DRY_RUN", codes "false")
    ∷ (codes "PROXY_AWS_ACCESS_KEY_ID", access_key)
    ∷ (codes "PROXY_AWS_SECRET_ACCESS_KEY", secret_key)
    ∷ (codes "READ_BUFFER_SIZE", codes "-1")
    ∷ []

abbrev environment : Environment
environment key = lookup key vars

abbrev settings : Settings
settings = Load.settings environment ((access_key, secret_key) ∷ []) [] legacy

abbrev nothing : Text → Option (Dict Text)
nothing text = none

abbrev no_files : Text → Option Text
no_files path = none

-- Of the address of a bucket.
abbrev virtual : Request
virtual = record (object_of_bucket get signed) {
  host = codes "media.s3.example.com:8080";
  path = codes "/object";
}

rewrite_host-virtual_example :
    rewrite_host (codes "s3.example.com") virtual
    ≡ record virtual { path = codes "/media/object"; raw_path = [] }
rewrite_host-virtual_example =
    rewrite_host-virtual (codes "s3.example.com") (codes "media") (some (codes "8080")) virtual
      (ground arith) (ground arith)
      (ground arith, (ground arith, (ground arith, (ground arith, tt)))) refl

abbrev pub storage : Url
storage = record { scheme = codes "https"; host = codes "storage.googleapis.com" }

abbrev pub encode : Dict Text → Text
encode q = []

abbrev pub md5_base64 : Text → Text
md5_base64 text = codes "bWQ1"

abbrev pub name_signer : Signer
name_signer creds hash = on_header (insert (codes "authorization") creds.access_key_id)

abbrev pub outgoing : Request → Outgoing
outgoing r = record {
  request = r;
  url_scheme = [];
  url_host = [];
  content_length = pos 0;
  body = no_body;
}

-- The same proxy with its pair of keys in a file, which a later reload cannot read.
abbrev file_vars : Dict Text
file_vars =
    (codes "DRY_RUN", codes "false") ∷ (codes "HMAC_CREDENTIALS_FILE", codes "/etc/creds") ∷ []

abbrev pub file_environment : Environment
file_environment key = lookup key file_vars

abbrev pub one_pair : Text → Option (Dict Text)
one_pair text = some ((access_key, secret_key) ∷ [])

abbrev pub one_file : Text → Option Text
one_file path = some (codes "{}")

abbrev pub file_settings : Settings
file_settings =
    Load.settings file_environment ((access_key, secret_key) ∷ []) (codes "/etc/creds") file

pub file_loaded : load_config one_pair one_file file_environment ≡ ok file_settings
unfolding load_config lookup text_eq is_true Load.proxy_ak Load.proxy_sk load_file trim_space
file_loaded = refl

abbrev touched : Op
touched = record { create = true; write = false; remove = false; rename = false; chmod = false }

abbrev pub failed_reload : List Event
failed_reload = file_event (codes "/etc/creds") touched ∷ debounced none ∷ []

abbrev pub good_reload : List Event
good_reload =
    failed_reload ++ file_event (codes "/etc/creds") touched ∷ debounced (some (codes "{}")) ∷ []

pub reloaded : one_client ≡ store_after one_pair file_settings true true failed_reload
unfolding store_after Load.settings watch run step is_relevant text_eq trim_left split load_file
    start replace copy_into insert
reloaded = refl

pub reloaded' : one_client ≡ store_after one_pair file_settings true true good_reload
unfolding store_after Load.settings watch run step is_relevant text_eq trim_left split load_file
    trim_space replace copy_into insert
reloaded' = refl

pub file_is_live : file_settings.dry_run ≡ false
unfolding Load.settings text_eq lookup is_true
file_is_live = refl
