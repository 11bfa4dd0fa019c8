-- ===== src/CredStore/Watch/Reload.antt =====
-- Hot reload: what every run of the watcher keeps, and what a burst of events comes to.
use s3proxy4gcs.Base.{
  ◌+◌, ◌≡◌, ◌≢◌, refl, ap, ◌∙◌, true, false, ◌||◌, Bool, none, some, Option, List, [], ◌∷◌, ◌++◌,
  Text, Dict, copy_into, length, arith, if◌then◌else◌,
}
use s3proxy4gcs.Base.Result.{ok, err, Result}
use s3proxy4gcs.CredStore.{Store, replace, load_file, ParseError}
use s3proxy4gcs.CredStore.Parsing.{
  AllFilled, parse_iff, AllFilled-copy_into, copy_into-ne-nil, insert-ne-nil,
}
use s3proxy4gcs.CredStore.Watch.{
  Op, Event, file_event, debounced, watcher_error, done, events_closed, errors_closed, Watcher,
  is_relevant, reload, receive, step, run,
}

-- The store serves somebody, none of its entries is blank, and its gauge shows its size.
pub record IsServing (s : Store) : Type 0 where
  pub serves : s.creds ≢ []
  pub filled : AllFilled s.creds
  pub counted : s.loaded ≡ length s.creds

pub replace-IsServing : (s : Store) (m : Dict Text) → m ≢ [] → AllFilled m → IsServing (replace s m)
unfolding replace copy_into
replace-IsServing s [] ne h = absurd (ne refl)
replace-IsServing s ((k, v) ∷ m) ne h = record {
  serves = copy_into-ne-nil m _ (insert-ne-nil k v []);
  filled = AllFilled-copy_into ((k, v) ∷ m) [] h tt;
  counted = refl;
}

if-IsServing :
    (b : Bool) (w v : Watcher)
    → IsServing w.store
    → IsServing v.store
    → IsServing (if b then w else v).store
if-IsServing true w v h k = h
if-IsServing false w v h k = k

module _ (unmarshal : Text → Option (Dict Text)) (path : Text) where
  pub load_file-AllFilled :
      (content : Option Text) (m : Dict Text)
      → load_file unmarshal content ≡ ok m
      → (m ≢ []) × AllFilled m
  unfolding load_file
  load_file-AllFilled none m e = absurd (ground arith)
  load_file-AllFilled (some payload) m e =
      let (_, _, ne, filled) = (parse_iff unmarshal payload m).0 e in (ne, filled)

  reload-IsServing :
      (w : Watcher) (content : Option Text)
      → IsServing w.store
      → IsServing (reload unmarshal path w content).store
  unfolding reload
  reload-IsServing w content h = go (load_file unmarshal content) (load_file-AllFilled content)
    where
      go :
          (r : Result ParseError (Dict Text))
          → ((m : Dict Text) → r ≡ ok m → (m ≢ []) × AllFilled m)
          → IsServing
              (elim r as (λ _. Watcher) [
                | err e ↦ record w { pending = false; errors = w.errors + 1 }
                | ok m ↦ record w {
                  store = replace w.store m;
                  pending = false;
                  successes = w.successes + 1;
                }
              ]).store
      go (err e) k = h
      go (ok m) k = let (ne, filled) = k m refl in replace-IsServing w.store m ne filled

  receive-IsServing :
      (w : Watcher) (e : Event) → IsServing w.store → IsServing (receive unmarshal path w e).store
  unfolding receive
  receive-IsServing w (file_event name op) h =
      if-IsServing (is_relevant path name op) (record w { pending = true }) w h h
  receive-IsServing w (debounced content) h =
      if-IsServing w.pending (reload unmarshal path w content) w (reload-IsServing w content h) h
  receive-IsServing w watcher_error h = h
  receive-IsServing w done h = h
  receive-IsServing w events_closed h = h
  receive-IsServing w errors_closed h = h

  step-IsServing :
      (w : Watcher) (e : Event) → IsServing w.store → IsServing (step unmarshal path w e).store
  unfolding step
  step-IsServing w e h =
      if-IsServing w.running (receive unmarshal path w e) w (receive-IsServing w e h) h

  -- Whatever the watcher receives, and whatever the file holds or fails to hold at each reload, a
  -- store that serves somebody goes on serving somebody, none of its entries is blank, and its
  -- gauge shows its size.
  pub run-IsServing :
      (w : Watcher) (es : List Event)
      → IsServing w.store
      → IsServing (run unmarshal path w es).store
  unfolding run
  run-IsServing w [] h = h
  run-IsServing w (e ∷ es) h = run-IsServing (step unmarshal path w e) es (step-IsServing w e h)

  -- The file events of a burst.
  abbrev pub file_events : List (Text × Op) → List Event
  file_events [] = []
  file_events ((name, op) ∷ es) = file_event name op ∷ file_events es

  abbrev pub any_relevant : List (Text × Op) → Bool
  any_relevant [] = false
  any_relevant ((name, op) ∷ es) = is_relevant path name op || any_relevant es

  step_file_event :
      (w : Watcher) (name : Text) (op : Op)
      → w.running ≡ true
      → step unmarshal path w (file_event name op)
        ≡ record w { pending = is_relevant path name op || w.pending }
  unfolding step receive
  step_file_event w name op r = ground arith

  step_debounced :
      (w : Watcher) (content : Option Text) (b : Bool)
      → w.running ≡ true
      → b ≡ true
      → step unmarshal path (record w { pending = b }) (debounced content)
        ≡ reload unmarshal path w content
  unfolding step receive reload
  step_debounced w content b r p = ground arith

  reload-pending :
      (w : Watcher) (content : Option Text) (b : Bool)
      → reload unmarshal path (record w { pending = b }) content ≡ reload unmarshal path w content
  unfolding reload
  reload-pending w content b = refl

  run-file_events :
      (w : Watcher) (es : List (Text × Op)) (content : Option Text)
      → w.running ≡ true
      → (any_relevant es || w.pending) ≡ true
      → run unmarshal path w (file_events es ++ debounced content ∷ [])
        ≡ reload unmarshal path w content
  unfolding run
  run-file_events w [] content r p = step_debounced w content w.pending r p
  run-file_events w ((name, op) ∷ es) content r p =
      let b = is_relevant path name op || w.pending in
      let w' = record w { pending = b } in
      ap (λ v. run unmarshal path v (file_events es ++ debounced content ∷ []))
        (step_file_event w name op r)
      ∙ (run-file_events w' es content r (ground arith) ∙ reload-pending w content b)

  -- A burst of file events, of which one at least concerns the credential file, and the timer
  -- behind it come to one single reload.
  pub run-burst :
      (w : Watcher) (es : List (Text × Op)) (content : Option Text)
      → w.running ≡ true
      → any_relevant es ≡ true
      → run unmarshal path w (file_events es ++ debounced content ∷ [])
        ≡ reload unmarshal path w content
  run-burst w es content r p = run-file_events w es content r (ground arith)
