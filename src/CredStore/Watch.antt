-- ===== src/CredStore/Watch.antt =====
-- `Watch` and `runWatcher` of pkg/credstore/credstore.go: the hot reload of the credential file, as
-- a machine over what its `select` receives. What a reload reads is part of the event.
pub mod Reload
use s3proxy4gcs.Base.{
  ℕ, zero, suc, ◌+◌, ◌≡◌, ◌≢◌, refl, sym, ◌∙◌, ap, Bool, true, false, ◌&&◌, ◌||◌, not, none, some,
  Option, List, [], ◌∷◌, Text, codes, text_eq, arith, Dict, lookup, length, is_nil, reverse, split,
  trim_left, ◌==◌, if◌then◌else◌, All,
}
use s3proxy4gcs.Base.Result.{Result, ok, err}
use s3proxy4gcs.CredStore.{Store, replace, size, parse, load_file, ParseError}

-- The flags of `fsnotify.Op`.
pub record Op : Type 0 where
  pub create : Bool
  pub write : Bool
  pub remove : Bool
  pub rename : Bool
  pub chmod : Bool

pub data Event : Type 0 where
  file_event : Text → Op → Event
  debounced : Option Text → Event
  watcher_error : Event
  done events_closed errors_closed : Event

-- The store, the timer that is pending, the reload counters, and whether the goroutine runs.
pub record Watcher : Type 0 where
  pub store : Store
  pub pending : Bool
  pub successes : ℕ
  pub errors : ℕ
  pub running : Bool

-- `Watch`, up to the start of the goroutine: whether `fsnotify.NewWatcher` and `Add` succeed is given,
-- and `none` is their error. The function that stops it comes to the event `done`, or to that of the
-- closed channel if the select takes this one first.
unfoldable pub watch : Bool → Bool → Store → Option Watcher
watch creates adds s =
    if creates && adds
    then some (record { store = s; pending = false; successes = 0; errors = 0; running = true })
    else none

head_or : Text → List Text → Text
head_or d [] = d
head_or d (p ∷ ps) = p

-- `filepath.Base(name)`.
unfoldable pub base_name : Text → Text
unfolding head_or
base_name name =
    if text_eq name []
    then codes "."
    else let trimmed = reverse (trim_left (λ c. c == b'/') (reverse name)) in
      if text_eq trimmed [] then codes "/" else head_or [] (reverse (split trimmed b'/'))

-- The two tests that a file event passes before it starts the timer.
unfoldable pub is_relevant : Text → Text → Op → Bool
unfolding base_name
is_relevant path name op =
    (text_eq (base_name name) (base_name path) || text_eq (base_name name) (codes "..data"))
    && (op.create || op.write || op.remove || op.rename)

module _ (unmarshal : Text → Option (Dict Text)) (path : Text) where
  unfoldable pub reload : Watcher → Option Text → Watcher
  reload w content = elim (load_file unmarshal content) [
    | err e ↦ record w { pending = false; errors = w.errors + 1 }
    | ok m ↦ record w { store = replace w.store m; pending = false; successes = w.successes + 1 }
  ]

  -- One round of the select. The channel of a timer that is not pending is nil, and never ready.
  receive : Watcher → Event → Watcher
  receive w (file_event name op) =
      if is_relevant path name op then record w { pending = true } else w
  receive w (debounced content) = if w.pending then reload w content else w
  receive w watcher_error = w
  receive w done = record w { running = false }
  receive w events_closed = record w { running = false }
  receive w errors_closed = record w { running = false }

  unfoldable pub step : Watcher → Event → Watcher
  unfolding receive reload
  step w e = if w.running then receive w e else w

  unfoldable pub run : Watcher → List Event → Watcher
  run w [] = w
  run w (e ∷ es) = run (step w e) es
