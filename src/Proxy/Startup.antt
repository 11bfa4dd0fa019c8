-- ===== src/Proxy/Startup.antt =====
-- main.go: the store of credentials when the server starts, and what becomes of it while it runs.
pub mod Reloaded
pub mod Live
use s3proxy4gcs.Base.{Bool, Option, none, some, List, Text, Dict, is_nil, if◌then◌else◌}
use s3proxy4gcs.Config.{Settings}
use s3proxy4gcs.CredStore.{Store, new, replace}
use s3proxy4gcs.CredStore.Watch.{Event, Watcher, watch, run}

-- `hmacCredentials`, seeded from the configuration.
unfoldable pub start : Settings → Store
start settings =
    if is_nil settings.hmac_credentials then new else replace new settings.hmac_credentials

-- The watcher, which only a credential file starts. When it cannot start, the server goes on with
-- the store as it is. Whether `fsnotify` makes the watcher and adds the directory is given.
unfoldable pub start_watcher : Settings → Bool → Bool → Option Watcher
start_watcher settings creates adds =
    if is_nil settings.credentials_file then none else watch creates adds (start settings)

-- The store that a request finds when the watcher has received the events: nothing else changes it.
unfoldable pub store_after :
    (Text → Option (Dict Text)) → Settings → Bool → Bool → List Event → Store
unfolding start_watcher
store_after unmarshal settings creates adds es = elim (start_watcher settings creates adds) [
  | none ↦ start settings
  | some w ↦ (run unmarshal settings.credentials_file w es).store
]
