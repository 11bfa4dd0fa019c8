-- ===== src/Proxy/Startup/Reloaded.antt =====
-- The store of a server that reloads its credentials, and the answers of such a server.
use s3proxy4gcs.Base.{
  ◌≡◌, ◌≢◌, refl, ap, sym, ◌∙◌, ◌⊎◌, inl, inr, Bool, true, false, Option, none, some, List, [], ◌∷◌,
  Text, Dict, length, is_nil, ◌==◌, arith, copy_into, if◌then◌else◌, Bool-cases,
}
use mathlib.Core.Path.{subst}
use s3proxy4gcs.Base.Result.{ok}
use s3proxy4gcs.Config.{Settings}
use s3proxy4gcs.Config.Env.{Environment}
use s3proxy4gcs.Config.Load.{load_config, Source, file, inline, legacy, nowhere}
use s3proxy4gcs.Config.Load.Credentials.{IsFrom, load_config-IsFrom, load_config-live}
use s3proxy4gcs.Http.{Request}
use s3proxy4gcs.CredStore.{Store, new, replace, size}
use s3proxy4gcs.CredStore.Parsing.{AllFilled, copy_into-ne-nil, insert-ne-nil}
use s3proxy4gcs.CredStore.Watch.{Event, Watcher, watch, run}
use s3proxy4gcs.CredStore.Watch.Reload.{IsServing, replace-IsServing, run-IsServing}
use s3proxy4gcs.Proxy.Monad.{State}
use s3proxy4gcs.Proxy.Client.{Env}
use s3proxy4gcs.Proxy.Dispatch.{handle_s3_request}
use s3proxy4gcs.Proxy.Rules.Answers.{IsIn, open_phase}
use s3proxy4gcs.Proxy.Answers.Settled.{IsSettled, handle_s3_request-IsSettled}
use s3proxy4gcs.Proxy.Startup.{start, start_watcher, store_after}

length-ne-nil : (m : Dict Text) → m ≢ [] → (length m == 0) ≡ false
length-ne-nil [] h = absurd (h refl)
length-ne-nil (e ∷ m) h = ground arith

IsServing-size : (s : Store) → IsServing s → (size s == 0) ≡ false
unfolding size
IsServing-size s h = length-ne-nil s.creds h.serves

replace-size : (s : Store) (m : Dict Text) → m ≢ [] → (size (replace s m) == 0) ≡ false
unfolding size replace copy_into
replace-size s [] h = absurd (h refl)
replace-size s ((k, v) ∷ m) h = length-ne-nil _ (copy_into-ne-nil m _ (insert-ne-nil k v []))

seed-size : (m : Dict Text) → m ≢ [] → (size (if is_nil m then new else replace new m) == 0) ≡ false
seed-size [] h = absurd (h refl)
seed-size (e ∷ m) h = replace-size new (e ∷ m) h

start-size : (s : Settings) → s.hmac_credentials ≢ [] → (size (start s) == 0) ≡ false
unfolding start
start-size s h = seed-size s.hmac_credentials h

start-IsServing :
    (s : Settings) → s.hmac_credentials ≢ [] → AllFilled s.hmac_credentials → IsServing (start s)
unfolding start
start-IsServing s ne filled = go s.hmac_credentials ne filled
  where
    go :
        (m : Dict Text) → m ≢ [] → AllFilled m → IsServing (if is_nil m then new else replace new m)
    go [] ne filled = absurd (ne refl)
    go (e ∷ m) ne filled = replace-IsServing new (e ∷ m) ne filled

watch-store :
    (creates adds : Bool) (s : Store) (w : Watcher) → watch creates adds s ≡ some w → w.store ≡ s
unfolding watch
watch-store true true s w e = ground (arith, e)
watch-store true false s w e = absurd (ground (arith, e))
watch-store false adds s w e = absurd (ground (arith, e))

module _ (unmarshal : Text → Option (Dict Text)) (settings : Settings) (creates adds : Bool) where
  watched-IsServing :
      (o : Option Watcher)
      → ((w : Watcher) → o ≡ some w → IsServing w.store)
      → (es : List Event) → IsServing (start settings)
      → IsServing (elim o as (λ _. Store) [
        | none ↦ start settings
        | some w ↦ (run unmarshal settings.credentials_file w es).store
      ])
  watched-IsServing none h es first = first
  watched-IsServing (some w) h es first =
      run-IsServing unmarshal settings.credentials_file w es (h w refl)

  start_watcher-store :
      (w : Watcher) → start_watcher settings creates adds ≡ some w → w.store ≡ start settings
  unfolding start_watcher
  start_watcher-store w e = elim (Bool-cases (is_nil settings.credentials_file)) [
    | inl no_file ↦ absurd (ground (arith, e, no_file))
    | inr has_file ↦ watch-store creates adds (start settings) w (ground (arith, e, has_file))
  ]

  store_after-IsServing :
      (es : List Event)
      → settings.hmac_credentials ≢ []
      → AllFilled settings.hmac_credentials
      → IsServing (store_after unmarshal settings creates adds es)
  unfolding store_after
  store_after-IsServing es ne filled =
      let first = start-IsServing settings ne filled in
      watched-IsServing (start_watcher settings creates adds)
        (λ w e. subst IsServing (sym (start_watcher-store w e)) first) es first

  start_watcher-none : settings.credentials_file ≡ [] → start_watcher settings creates adds ≡ none
  unfolding start_watcher
  start_watcher-none e =
      let no_file : is_nil settings.credentials_file ≡ true = ap is_nil e in ground (arith, no_file)

  store_after-fixed :
      (es : List Event)
      → settings.credentials_file ≡ []
      → store_after unmarshal settings creates adds es ≡ start settings
  unfolding store_after
  store_after-fixed es e =
      ap
        (λ o. elim o as (λ _. Store) [
          | none ↦ start settings
          | some w ↦ (run unmarshal settings.credentials_file w es).store
        ])
        (start_watcher-none e)

-- Without a credential file there is no map to reload; with one, what it first held has no blanks.
IsFrom-cases :
    (creds : Dict Text) (path : Text) (source : Source)
    → IsFrom creds path source
    → (path ≡ []) ⊎ ((creds ≢ []) × AllFilled creds)
IsFrom-cases creds path nowhere h = inl h.1
IsFrom-cases creds path legacy h = inl h.1
IsFrom-cases creds path inline h = inl h.2
IsFrom-cases creds path file h = inr h

module _ (unmarshal : Text → Option (Dict Text)) (read_file : Text → Option Text)
    (vars : Environment) (settings : Settings)
    (loaded : load_config unmarshal read_file vars ≡ ok settings) (creates adds : Bool) where
  abbrev store_at : List Event → Store
  store_at es = store_after unmarshal settings creates adds es

  store_at-cases :
      ((es : List Event) → store_at es ≡ start settings)
      ⊎ ((es : List Event) → (size (store_at es) == 0) ≡ false)
  store_at-cases =
      let (source, from) = load_config-IsFrom unmarshal read_file vars settings loaded in
      elim (IsFrom-cases settings.hmac_credentials settings.credentials_file source from) [
        | inl no_file ↦ inl (λ es. store_after-fixed unmarshal settings creates adds es no_file)
        | inr (ne, filled) ↦ inr (λ es.
            IsServing-size (store_at es)
              (store_after-IsServing unmarshal settings creates adds es ne filled))
      ]

  -- Whatever events came before each of the two, the store is empty both times or neither time.
  pub store_after-Stays :
      (es es' : List Event)
      → ((size (store_after unmarshal settings creates adds es) == 0) ≡ true)
        ⊎ ((size (store_after unmarshal settings creates adds es') == 0) ≡ false)
  store_after-Stays es es' = elim store_at-cases [
    | inr serving ↦ inr (serving es')
    | inl fixed ↦ elim (Bool-cases (size (start settings) == 0)) [
      | inl off ↦ inl (ap (λ s. size s == 0) (fixed es) ∙ off)
      | inr on ↦ inr (ap (λ s. size s == 0) (fixed es') ∙ on)
    ]
  ]

  -- A server that is to reach the storage service has a store that is never empty.
  pub store_after-size :
      (es : List Event)
      → settings.dry_run ≡ false
      → (size (store_after unmarshal settings creates adds es) == 0) ≡ false
  store_after-size es live = elim store_at-cases [
    | inr serving ↦ serving es
    | inl fixed ↦
        ap (λ s. size s == 0) (fixed es)
        ∙ start-size settings (load_config-live unmarshal read_file vars settings loaded live)
  ]

-- If the environment of the process loads to a configuration, then whatever the watcher of the
-- credential file has received before each of the three times that the handling of a request reads
-- the store, and whether or not that watcher could start, the request is answered by the proxy or
-- handed to a reverse proxy, and never both.
pub handle_s3_request-reloaded :
    {W : Type 0} (unmarshal : Text → Option (Dict Text)) (read_file : Text → Option Text)
    (vars : Environment) (settings : Settings) (creates adds : Bool) (env : Env W) (r : Request)
    (s : State W) (at_gate at_validation : List Event)
    → load_config unmarshal read_file vars ≡ ok settings
    → env.store_at_gate ≡ store_after unmarshal settings creates adds at_gate
    → env.store_at_validation ≡ store_after unmarshal settings creates adds at_validation
    → IsIn open_phase s
    → IsSettled (handle_s3_request env r s).1
handle_s3_request-reloaded unmarshal read_file vars settings creates adds env r s at_gate
      at_validation loaded gate validation h =
    handle_s3_request-IsSettled env r s h (
      rw (gate, validation)
        (store_after-Stays unmarshal read_file vars settings loaded creates adds at_gate
          at_validation))
