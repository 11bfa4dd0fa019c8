-- ===== src/Proxy/Answers/Unsupported.antt =====
-- Requests that the proxy cannot carry out on GCS are turned away before any handler.
use mathlib.Core.Bool.{true≢false}
use mathlib.Core.Path.{subst}
use s3proxy4gcs.Proxy.Answers.Gate.{gate_off}
use s3proxy4gcs.Base.{
  sym, ◌∙◌, [], ◌≡◌, ◌⊎◌, inl, inr, ◌&&◌, Bool, true, false, not, none, some, is_none, codes,
  text_eq, contains, ◌==◌, Bool-cases,
}
use s3proxy4gcs.Http.{Request, get_header}
use s3proxy4gcs.CredStore.{size}
use s3proxy4gcs.Proxy.Client.{Env}
use s3proxy4gcs.Proxy.Monad.{State, ◌>>=◌, return_if}
use s3proxy4gcs.Proxy.Helpers.{write_error}
use s3proxy4gcs.Proxy.StorageClass.{translate_s3_storage_class}
use s3proxy4gcs.Proxy.Dispatch.{
  storage_class_gate, chunked_gate, checks, admitted, handle_s3_request,
}

-- The storage class of the request is given and unknown.
abbrev pub has_unknown_class : Request → Bool
has_unknown_class r =
    let sc = get_header r.header (codes "x-amz-storage-class") in
    not (text_eq sc []) && is_none (translate_s3_storage_class sc)

abbrev pub is_chunked : Request → Bool
is_chunked r = contains (get_header r.header (codes "content-encoding")) (codes "aws-chunked")

pub record IsBadRequest {W : Type 0} (s s' : State W) : Type 0 where
  pub bad_request : s'.status ≡ some 400
  pub not_sent : s'.forwarded ≡ s.forwarded
  pub same_world : s'.world ≡ s.world

module _ {W : Type 0} (env : Env W) (r : Request) (s : State W) (fresh : s.status ≡ none) where
  unknown-IsBadRequest : has_unknown_class r ≡ true → IsBadRequest s (admitted env r s).1
  unfolding admitted checks storage_class_gate ◌>>=◌ return_if write_error
  unknown-IsBadRequest unknown = record {
    bad_request = rw (unknown, fresh);
    not_sent = rw unknown;
    same_world = rw unknown;
  }

  chunked-IsBadRequest :
      has_unknown_class r ≡ false → is_chunked r ≡ true → IsBadRequest s (admitted env r s).1
  unfolding admitted checks storage_class_gate chunked_gate ◌>>=◌ return_if write_error
  chunked-IsBadRequest known chunked = record {
    bad_request = rw (known, chunked, fresh);
    not_sent = rw (known, chunked);
    same_world = rw (known, chunked);
  }

-- Without a credential store, a request of an unknown storage class or with an aws-chunked body
-- gets the status 400; it is not forwarded and does not change the storage service.
pub handle_s3_request-unsupported :
    {W : Type 0} (env : Env W) (r : Request) (s : State W)
    → s.status ≡ none
    → (size env.store_at_gate == 0) ≡ true
    → (has_unknown_class r ≡ true) ⊎ (is_chunked r ≡ true)
    → IsBadRequest s (handle_s3_request env r s).1
handle_s3_request-unsupported env r s fresh off reason =
    subst (λ m. IsBadRequest s (m s).1) (sym (gate_off env r off))
      (elim (Bool-cases (has_unknown_class r)) [
        | inl unknown ↦ unknown-IsBadRequest env r s fresh unknown
        | inr known ↦ elim reason [
          | inl unknown ↦ absurd (true≢false (sym unknown ∙ known))
          | inr chunked ↦ chunked-IsBadRequest env r s fresh known chunked
        ]
      ])
