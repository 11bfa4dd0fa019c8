-- ===== src/Proxy/Safety/ReadOnly.antt =====
-- A request of a method other than PUT and DELETE: no handler changes the storage service for it,
-- and a GET or a HEAD that is forwarded goes to the read plane.
use s3proxy4gcs.Base.{
  ◌≡◌, ◌⊎◌, inl, inr, refl, sym, ap, ◌∙◌, ◌==◌, Bool, Bool-cases, true, false, Option, none, some,
  Text, if◌then◌else◌,
}
use s3proxy4gcs.Http.{Method, get, head, Request, is_put, is_delete}
use s3proxy4gcs.CredStore.{Store, find, size}
use s3proxy4gcs.Proxy.Client.{Env}
use s3proxy4gcs.Proxy.Monad.{Plane, read_plane, State, Flow, next, stop, M, ◌>>=◌, continue, pure}
use s3proxy4gcs.Proxy.Credentials.{resolve, look_up, validate_client_credential, request_key}
use s3proxy4gcs.Proxy.Helpers.{write_s3_error}
use s3proxy4gcs.Proxy.Dispatch.{
  control_plane, restore_block, checks, admitted, handle_s3_request, lifecycle_block, cors_block,
  logging_block, website_block, tagging_block, credential_gate, plane_of,
}
use s3proxy4gcs.Proxy.Rules.Answers.{IsIn, open_phase}
use s3proxy4gcs.Proxy.Answers.Requests.{admitted-Done}
use s3proxy4gcs.Proxy.Answers.Gate.{gate_off, Done-forwarded, handle_s3_request-forwarded}
use s3proxy4gcs.Proxy.Rules.World.{Reads, skipped-Reads}
use s3proxy4gcs.Proxy.Rules.Helpers.{helpers_read}
use s3proxy4gcs.Proxy.Safety.Handlers.{
  handle_get_lifecycle-Reads, handle_get_cors-Reads, handle_get_logging-Reads,
  handle_get_website-Reads, handle_get_object_tagging-Reads, handle_restore_object-Reads,
  gates_read, credential_gate-Reads,
}

module _ {W : Type 0} (env : Env W) (r : Request) (no_put : is_put r.method ≡ false)
    (no_delete : is_delete r.method ≡ false) where
  lifecycle_block-Reads : Reads (lifecycle_block env r)
  unfolding lifecycle_block
  lifecycle_block-Reads = search (skipped-Reads, handle_get_lifecycle-Reads, helpers_read) depth 10

  cors_block-Reads : Reads (cors_block env r)
  unfolding cors_block
  cors_block-Reads = search (skipped-Reads, handle_get_cors-Reads, helpers_read) depth 10

  logging_block-Reads : Reads (logging_block env r)
  unfolding logging_block
  logging_block-Reads = search (skipped-Reads, handle_get_logging-Reads, helpers_read) depth 10

  website_block-Reads : Reads (website_block env r)
  unfolding website_block
  website_block-Reads = search (skipped-Reads, handle_get_website-Reads, helpers_read) depth 10

  tagging_block-Reads : Reads (tagging_block env r)
  unfolding tagging_block
  tagging_block-Reads =
      search (skipped-Reads, handle_get_object_tagging-Reads, helpers_read) depth 10

  restore_block-Reads : Reads (restore_block env r)
  unfolding restore_block
  restore_block-Reads = search (handle_restore_object-Reads, helpers_read) depth 10

  control_plane-Reads : Reads (control_plane env r)
  unfolding control_plane
  control_plane-Reads =
      search
        (
          lifecycle_block-Reads, cors_block-Reads, logging_block-Reads, website_block-Reads,
          tagging_block-Reads, restore_block-Reads, helpers_read,
        )
        depth 10

  checks-Reads : Reads (checks env r)
  unfolding checks
  checks-Reads = search (control_plane-Reads, gates_read) depth 10

  admitted-Reads : Reads (admitted env r)
  unfolding admitted
  admitted-Reads = search (checks-Reads, gates_read)

-- A request that an action lets in has the method of `r`.
IsKept : Request → Flow Request → Type 0
IsKept r (next a) = a.method ≡ r.method
IsKept r stop = Unit {0}

module _ {W : Type 0} (r : Request) where
  resolve-IsKept : (ak : Text) (o : Option Text) (s : State W) → IsKept r (resolve r ak o s).0
  unfolding IsKept resolve ◌>>=◌ write_s3_error
  resolve-IsKept ak (some sk) s = refl
  resolve-IsKept ak none s = tt

  look_up-IsKept :
      (store : Store) (key : Option Text) (s : State W) → IsKept r (look_up store r key s).0
  unfolding IsKept look_up ◌>>=◌ write_s3_error
  look_up-IsKept store (some ak) s = resolve-IsKept ak (find store ak) s
  look_up-IsKept store none s = tt

  if-IsKept :
      (b : Bool) (m n : M W Request) (s : State W)
      → IsKept r (m s).0
      → IsKept r (n s).0
      → IsKept r ((if b then m else n) s).0
  if-IsKept true m n s km kn = km
  if-IsKept false m n s km kn = kn

  credential_gate-IsKept : (env : Env W) (s : State W) → IsKept r (credential_gate env r s).0
  unfolding IsKept credential_gate validate_client_credential ◌>>=◌
  credential_gate-IsKept env s =
      if-IsKept (size env.store_at_gate == 0) (pure r) (validate_client_credential env r) s refl (
        if-IsKept (size env.store_at_validation == 0) _ _ s tt
          (look_up-IsKept env.store_at_lookup (request_key r) s))

admit-world :
    {W : Type 0} (env : Env W) (r : Request)
    → is_put r.method ≡ false
    → is_delete r.method ≡ false
    → (flow : Flow Request) (s : State W) → IsKept r flow
    → (continue flow (admitted env) s).1.world ≡ s.world
unfolding IsKept
admit-world env r no_put no_delete (next a) s kept =
    (admitted-Reads env a (ap is_put kept ∙ no_put) (ap is_delete kept ∙ no_delete)).at s
admit-world env r no_put no_delete stop s kept = refl

handle_s3_request-world :
    {W : Type 0} (env : Env W) (r : Request)
    → is_put r.method ≡ false
    → is_delete r.method ≡ false
    → (s : State W) → (handle_s3_request env r s).1.world ≡ s.world
unfolding handle_s3_request ◌>>=◌
handle_s3_request-world env r no_put no_delete s =
    let (flow, s') = credential_gate env r s in
    admit-world env r no_put no_delete flow s' (credential_gate-IsKept r env s)
    ∙ (credential_gate-Reads env r).at s

-- What is handed to a reverse proxy goes to the one of its method, with that method.
handle_s3_request-plane :
    {W : Type 0} (env : Env W) (r : Request) (s : State W)
    → IsIn open_phase s
    → (p : Plane) (r' : Request) → (handle_s3_request env r s).1.forwarded ≡ some (p, r')
    → (p ≡ plane_of r.method) × (r'.method ≡ r.method)
handle_s3_request-plane env r s h p r' sent = elim (Bool-cases (size env.store_at_gate == 0)) [
  | inl off ↦
      let (plane, same) =
        Done-forwarded r _ p r' (admitted-Done env r s h)
          (ap (λ m. (m s).1.forwarded) (sym (gate_off env r off)) ∙ sent) in
      (plane, ap (λ a. a.method) same)
  | inr on ↦
      let (lets_in, plane) = handle_s3_request-forwarded env r s h on p r' sent in
      (plane, ap (λ a. a.method) lets_in.with_creds)
]

read_method_lem :
    (m : Method)
    → (m ≡ get) ⊎ (m ≡ head)
    → (is_put m ≡ false) × (is_delete m ≡ false) × (plane_of m ≡ read_plane)
unfolding plane_of
read_method_lem m (inl e) = rw e (refl, refl, refl)
read_method_lem m (inr e) = rw e (refl, refl, refl)

-- For a GET or a HEAD, dry run or not, the handlers make no call that changes the storage service,
-- and if the request is handed to a reverse proxy, it is to that of the read plane, still as a GET
-- or a HEAD.
pub handle_s3_request-read_only :
    {W : Type 0} (env : Env W) (r : Request) (s : State W)
    → IsIn open_phase s
    → (r.method ≡ get) ⊎ (r.method ≡ head)
    → ((handle_s3_request env r s).1.world ≡ s.world)
      × ((p : Plane) (r' : Request)
          → (handle_s3_request env r s).1.forwarded ≡ some (p, r')
          → (p ≡ read_plane) × (r'.method ≡ r.method))
handle_s3_request-read_only env r s h reads =
    let (no_put, no_delete, plane) = read_method_lem r.method reads in
    (
      handle_s3_request-world env r no_put no_delete s,
      λ p r' sent.
          let (there, same) = handle_s3_request-plane env r s h p r' sent in (there ∙ plane, same),
    )
