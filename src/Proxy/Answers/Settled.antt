-- ===== src/Proxy/Answers/Settled.antt =====
-- Exactly one answer to a request.
use mathlib.Core.Option.{some-ne-none}
use mathlib.Core.Path.{subst}
use mathlib.Core.Bool.{true≢false}
use s3proxy4gcs.Base.{
  ◌≡◌, refl, sym, ap, ◌∙◌, ◌⊎◌, inl, inr, true, false, not, Option, none, some, is_some, Text, ◌==◌,
  Bool-cases,
}
use s3proxy4gcs.Http.{Request}
use s3proxy4gcs.CredStore.{Store, find, size}
use s3proxy4gcs.Proxy.Client.{Env}
use s3proxy4gcs.Proxy.Monad.{State, ◌>>=◌}
use s3proxy4gcs.Proxy.Credentials.{request_key, resolve, look_up}
use s3proxy4gcs.Proxy.Dispatch.{admitted, handle_s3_request}
use s3proxy4gcs.Proxy.Rules.Answers.{IsIn, open_phase}
use s3proxy4gcs.Proxy.Answers.Requests.{Done, admitted-Done}
use s3proxy4gcs.Proxy.Answers.Gate.{
  IsRefusal, gate_off, gate_on, resolve-none, look_up-none, resolved, counted, counted-IsIn,
}

-- The status is out, or the request is with a reverse proxy, but not both.
abbrev pub IsSettled : {W : Type 0} → State W → Type 0
IsSettled s = is_some s.status ≡ not (is_some s.forwarded)

module _ {W : Type 0} where
  Done-IsSettled : (a : Request) (s : State W) → Done a s → IsSettled s
  Done-IsSettled a s (inl answer) =
      answer.status_out ∙ sym (ap (λ o. not (is_some o)) answer.not_forwarded)
  Done-IsSettled a s (inr (silent, sent)) = silent ∙ sym (ap (λ o. not (is_some o)) sent)

  IsRefusal-IsSettled : (s s' : State W) → IsRefusal s s' → IsSettled s'
  IsRefusal-IsSettled s s' h =
      ap is_some h.is_forbidden ∙ sym (ap (λ o. not (is_some o)) h.not_sent)

module _ {W : Type 0} (env : Env W) (r : Request) (s : State W) (h : IsIn open_phase s) where
  resolve-IsSettled :
      (ak : Text) (o : Option Text) → IsSettled ((resolve r ak o >>= admitted env) s).1
  unfolding resolve ◌>>=◌
  resolve-IsSettled ak none =
      IsRefusal-IsSettled s _ (resolve-none (admitted env) r s h ak none refl)
  resolve-IsSettled ak (some sk) =
      Done-IsSettled (resolved r ak sk) _
        (admitted-Done env (resolved r ak sk) (counted s "hit") (counted-IsIn s h "hit"))

  look_up-IsSettled :
      (store : Store) (key : Option Text) → IsSettled ((look_up store r key >>= admitted env) s).1
  unfolding look_up
  look_up-IsSettled store none =
      IsRefusal-IsSettled s _
        (look_up-none (admitted env) r s h store none λ ak e. absurd (some-ne-none ak (sym e)))
  look_up-IsSettled store (some ak) = resolve-IsSettled ak (find store ak)

-- When the store is not emptied between the gate and the validation, a request is answered by the
-- proxy or handed to a reverse proxy, and never both.
pub handle_s3_request-IsSettled :
    {W : Type 0} (env : Env W) (r : Request) (s : State W)
    → IsIn open_phase s
    → ((size env.store_at_gate == 0) ≡ true) ⊎ ((size env.store_at_validation == 0) ≡ false)
    → IsSettled (handle_s3_request env r s).1
handle_s3_request-IsSettled env r s h stores = elim (Bool-cases (size env.store_at_gate == 0)) [
  | inl off ↦
      subst (λ m. IsSettled (m s).1) (sym (gate_off env r off))
        (Done-IsSettled r _ (admitted-Done env r s h))
  | inr on ↦ elim stores [
    | inl off ↦ absurd (true≢false (sym off ∙ on))
    | inr on' ↦
        subst (λ m. IsSettled (m s).1) (sym (gate_on env r on on'))
          (look_up-IsSettled env r s h env.store_at_lookup (request_key r))
  ]
]
