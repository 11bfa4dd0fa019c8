-- ===== src/Proxy/Answers/Gate.antt =====
-- The credential gate: who is let in, and what the others get.
use Prim.Native.String.{String}
use mathlib.Core.Bool.{true≢false}
use mathlib.Core.Option.{some-ne-none, some-injective}
use s3proxy4gcs.Base.{
  ℕ, ◌≡◌, refl, sym, ap, ◌∙◌, inl, inr, true, false, Option, none, some, is_some, Text,
  if◌then◌else◌, ◌==◌, Bool-cases,
}
use mathlib.Core.Path.{subst}
use s3proxy4gcs.Http.{Request}
use s3proxy4gcs.CredStore.{Store, find, size}
use s3proxy4gcs.Proxy.Client.{Env}
use s3proxy4gcs.Proxy.Monad.{
  State, Plane, M, ◌>>=◌, ◌>>◌, observe, hmac_credential_lookup, pure, leave, first_status,
}
use s3proxy4gcs.Proxy.Helpers.{write_s3_error, write_error}
use s3proxy4gcs.Proxy.Credentials.{request_key, resolve, look_up, validate_client_credential}
use s3proxy4gcs.Proxy.Dispatch.{credential_gate, plane_of, admitted, handle_s3_request}
use s3proxy4gcs.Proxy.Rules.Answers.{IsIn, open_phase}
use s3proxy4gcs.Proxy.Answers.Requests.{Done, admitted-Done}

module _ {W : Type 0} (env : Env W) (r : Request) where
  pub gate_off : (size env.store_at_gate == 0) ≡ true → handle_s3_request env r ≡ admitted env r
  unfolding handle_s3_request credential_gate ◌>>=◌
  gate_off h = ap (λ b. (if b then pure r else validate_client_credential env r) >>= admitted env) h

  pub gate_on :
      (size env.store_at_gate == 0) ≡ false
      → (size env.store_at_validation == 0) ≡ false
      → handle_s3_request env r ≡ (look_up env.store_at_lookup r (request_key r) >>= admitted env)
  unfolding handle_s3_request credential_gate validate_client_credential
  gate_on h h' =
      ap (λ b. (if b then pure r else validate_client_credential env r) >>= admitted env) h
      ∙ ap
          (λ b.
            (if b
              then (observe (hmac_credential_lookup "disabled") >> leave)
              else look_up env.store_at_lookup r (request_key r))
            >>= admitted env)
          h'

  gate_emptied :
      (size env.store_at_gate == 0) ≡ false
      → (size env.store_at_validation == 0) ≡ true
      → handle_s3_request env r
        ≡ ((observe (hmac_credential_lookup "disabled") >> leave) >>= admitted env)
  unfolding handle_s3_request credential_gate validate_client_credential
  gate_emptied h h' =
      ap (λ b. (if b then pure r else validate_client_credential env r) >>= admitted env) h
      ∙ ap
          (λ b.
            (if b
              then (observe (hmac_credential_lookup "disabled") >> leave)
              else look_up env.store_at_lookup r (request_key r))
            >>= admitted env)
          h'

-- `r'` is `r` with the secret that the store has for the key that `r` was signed with.
pub record IsAdmitted (store : Store) (r r' : Request) : Type 0 where
  pub access_key : Text
  pub secret_key : Text
  pub key_found : request_key r ≡ some access_key
  pub secret_found : find store access_key ≡ some secret_key
  pub with_creds : r' ≡ record r {
    resolved_creds = some (record { access_key_id = access_key; secret_access_key = secret_key });
  }

-- The response of a refusal.
pub record IsRefusal {W : Type 0} (s s' : State W) : Type 0 where
  pub is_forbidden : s'.status ≡ some 403
  pub not_sent : s'.forwarded ≡ none
  pub same_world : s'.world ≡ s.world

first_status-fresh :
    (old : Option ℕ) (code : ℕ) → is_some old ≡ false → first_status old code ≡ some code
first_status-fresh none code h = refl
first_status-fresh (some c) code h = absurd (true≢false h)

module _ {W : Type 0} (k : Request → M W (Unit {0})) (r : Request) (s : State W)
    (h : IsIn open_phase s) where
  pub resolve-none :
      (ak : Text) (o : Option Text) → o ≡ none → IsRefusal s ((resolve r ak o >>= k) s).1
  unfolding resolve ◌>>=◌ write_s3_error write_error
  resolve-none ak none p = record {
    is_forbidden = first_status-fresh s.status 403 h.status_out;
    not_sent = h.not_forwarded;
    same_world = refl;
  }
  resolve-none ak (some sk) p = absurd (some-ne-none sk p)

  pub look_up-none :
      (store : Store) (key : Option Text)
      → ((ak : Text) → key ≡ some ak → find store ak ≡ none)
      → IsRefusal s ((look_up store r key >>= k) s).1
  unfolding look_up ◌>>=◌ write_s3_error write_error
  look_up-none store none unknown = record {
    is_forbidden = first_status-fresh s.status 403 h.status_out;
    not_sent = h.not_forwarded;
    same_world = refl;
  }
  look_up-none store (some ak) unknown = resolve-none ak (find store ak) (unknown ak refl)

pub Done-forwarded :
    {W : Type 0} (a : Request) (s : State W) (p : Plane) (r' : Request)
    → Done a s
    → s.forwarded ≡ some (p, r')
    → (p ≡ plane_of a.method) × (r' ≡ a)
Done-forwarded a s p r' (inl answer) sent =
    absurd (some-ne-none (p, r') (sym sent ∙ answer.not_forwarded))
Done-forwarded a s p r' (inr (c, sent')) sent =
    let e = some-injective _ _ (sym sent ∙ sent') in (ap (λ q. q.0) e, ap (λ q. q.1) e)

abbrev pub resolved : Request → Text → Text → Request
resolved r ak sk = record r {
  resolved_creds = some (record { access_key_id = ak; secret_access_key = sk });
}

abbrev pub counted : {W : Type 0} → State W → String → State W
counted s outcome = (observe (hmac_credential_lookup outcome) s).1

pub counted-IsIn :
    {W : Type 0} (s : State W)
    → IsIn open_phase s
    → (outcome : String) → IsIn open_phase (counted s outcome)
unfolding observe
counted-IsIn s h outcome = record { status_out = h.status_out; not_forwarded = h.not_forwarded }

module _ {W : Type 0} (env : Env W) (r : Request) (s : State W) (h : IsIn open_phase s) where
  resolve-forwarded :
      (store : Store) (ak : Text) (o : Option Text)
      → find store ak ≡ o
      → request_key r ≡ some ak
      → (p : Plane) (r' : Request)
      → ((resolve r ak o >>= admitted env) s).1.forwarded ≡ some (p, r')
      → IsAdmitted store r r' × (p ≡ plane_of r.method)
  unfolding resolve ◌>>=◌ write_s3_error write_error
  resolve-forwarded store ak none found signed p r' sent =
      absurd (some-ne-none (p, r') (sym sent ∙ h.not_forwarded))
  resolve-forwarded store ak (some sk) found signed p r' sent =
      let e =
        Done-forwarded (resolved r ak sk) _ p r'
          (admitted-Done env (resolved r ak sk) (counted s "hit") (counted-IsIn s h "hit")) sent in
      (
        record {
          access_key = ak;
          secret_key = sk;
          key_found = signed;
          secret_found = found;
          with_creds = e.1;
        },
        e.0,
      )

  look_up-forwarded :
      (store : Store) (key : Option Text)
      → request_key r ≡ key
      → (p : Plane) (r' : Request)
      → ((look_up store r key >>= admitted env) s).1.forwarded ≡ some (p, r')
      → IsAdmitted store r r' × (p ≡ plane_of r.method)
  unfolding look_up ◌>>=◌ write_s3_error write_error
  look_up-forwarded store none signed p r' sent =
      absurd (some-ne-none (p, r') (sym sent ∙ h.not_forwarded))
  look_up-forwarded store (some ak) signed p r' sent =
      resolve-forwarded store ak (find store ak) refl signed p r' sent

  -- The store held a credential at the gate and none at the validation: the handler ends without a
  -- status and without forwarding the request.
  emptied-status :
      (size env.store_at_gate == 0) ≡ false
      → (size env.store_at_validation == 0) ≡ true
      → IsIn open_phase (handle_s3_request env r s).1
  unfolding ◌>>=◌
  emptied-status on off =
      subst (λ m. IsIn open_phase (m s).1) (sym (gate_emptied env r on off))
        (counted-IsIn s h "disabled")

-- With credentials in the store at the gate, a request that is handed to a reverse proxy goes to
-- the one of its method and carries the secret that the store has for the key it was signed with.
pub handle_s3_request-forwarded :
    {W : Type 0} (env : Env W) (r : Request) (s : State W)
    → IsIn open_phase s
    → (size env.store_at_gate == 0) ≡ false
    → (p : Plane) (r' : Request) → (handle_s3_request env r s).1.forwarded ≡ some (p, r')
    → IsAdmitted env.store_at_lookup r r' × (p ≡ plane_of r.method)
handle_s3_request-forwarded env r s h on p r' sent =
    elim (Bool-cases (size env.store_at_validation == 0)) [
      | inl off ↦
          absurd (some-ne-none (p, r') (sym sent ∙ (emptied-status env r s h on off).not_forwarded))
      | inr on' ↦
          look_up-forwarded env r s h env.store_at_lookup (request_key r) refl p r'
            (ap (λ m. (m s).1.forwarded) (sym (gate_on env r on on')) ∙ sent)
    ]

-- With credentials in the store, a request without a key, or with a key that the store does not
-- have, gets the status 403, is not forwarded, and does not change the storage service.
pub handle_s3_request-refused :
    {W : Type 0} (env : Env W) (r : Request) (s : State W)
    → IsIn open_phase s
    → (size env.store_at_gate == 0) ≡ false
    → (size env.store_at_validation == 0) ≡ false
    → ((ak : Text) → request_key r ≡ some ak → find env.store_at_lookup ak ≡ none)
    → IsRefusal s (handle_s3_request env r s).1
handle_s3_request-refused env r s h on on' unknown =
    subst (λ m. IsRefusal s (m s).1) (sym (gate_on env r on on'))
      (look_up-none (admitted env) r s h env.store_at_lookup (request_key r) unknown)
