-- ===== src/Proxy/Answers/Requests.antt =====
-- Every request that is let in is answered by the proxy or handed to a reverse proxy.
use s3proxy4gcs.Base.{◌≡◌, refl, false, some, is_some, ◌⊎◌, inl, inr}
use s3proxy4gcs.Http.{Request}
use s3proxy4gcs.Proxy.Client.{Env}
use s3proxy4gcs.Proxy.Monad.{State, Flow, next, stop, continue, ◌>>=◌}
use s3proxy4gcs.Proxy.Dispatch.{
  storage_class_gate, chunked_gate, data_plane_gates, forward, control_plane, restore_block,
  plane_of, checks, admitted, lifecycle_block, cors_block, logging_block, website_block,
  tagging_block,
}
use s3proxy4gcs.Proxy.Rules.Answers.{open_phase, answered, Leads, IsIn, Outcome}
use s3proxy4gcs.Proxy.Answers.Helpers.{helpers_lead}
use s3proxy4gcs.Proxy.Answers.Handlers.{handlers_lead}

ruleset rules = (handlers_lead, helpers_lead)

module _ {W : Type 0} (env : Env W) where
  lifecycle_block-Leads : (r : Request) → Leads open_phase open_phase (lifecycle_block env r)
  unfolding lifecycle_block
  lifecycle_block-Leads r = search rules depth 12

  cors_block-Leads : (r : Request) → Leads open_phase open_phase (cors_block env r)
  unfolding cors_block
  cors_block-Leads r = search rules depth 12

  logging_block-Leads : (r : Request) → Leads open_phase open_phase (logging_block env r)
  unfolding logging_block
  logging_block-Leads r = search rules depth 12

  website_block-Leads : (r : Request) → Leads open_phase open_phase (website_block env r)
  unfolding website_block
  website_block-Leads r = search rules depth 12

  tagging_block-Leads : (r : Request) → Leads open_phase open_phase (tagging_block env r)
  unfolding tagging_block
  tagging_block-Leads r = search rules depth 12

  restore_block-Leads : (r : Request) → Leads open_phase open_phase (restore_block env r)
  unfolding restore_block
  restore_block-Leads r = search rules depth 12

  control_plane-Leads : (r : Request) → Leads open_phase open_phase (control_plane env r)
  unfolding control_plane
  control_plane-Leads r =
      search
        (
          lifecycle_block-Leads, cors_block-Leads, logging_block-Leads, website_block-Leads,
          tagging_block-Leads, restore_block-Leads, helpers_lead,
        )
        depth 12

  storage_class_gate-Leads : (r : Request) → Leads open_phase open_phase (storage_class_gate env r)
  unfolding storage_class_gate
  storage_class_gate-Leads r = search helpers_lead

  chunked_gate-Leads : (r : Request) → Leads open_phase open_phase (chunked_gate env r)
  unfolding chunked_gate
  chunked_gate-Leads r = search helpers_lead

  data_plane_gates-Leads : (r : Request) → Leads open_phase open_phase (data_plane_gates env r)
  unfolding data_plane_gates
  data_plane_gates-Leads r = search helpers_lead depth 12

  checks-Leads : (r : Request) → Leads open_phase open_phase (checks env r)
  unfolding checks
  checks-Leads r =
      search
        (
          storage_class_gate-Leads, chunked_gate-Leads, control_plane-Leads, data_plane_gates-Leads,
          helpers_lead,
        )
        depth 10

-- A request is done: the proxy has answered it, or it is with the reverse proxy of its method.
abbrev pub Done : {W : Type 0} → Request → State W → Type 0
Done r s =
    IsIn answered s ⊎ ((is_some s.status ≡ false) × (s.forwarded ≡ some (plane_of r.method, r)))

module _ {W : Type 0} where
  forward-Done :
      (flow : Flow (Unit {0})) (r : Request) (s : State W)
      → Outcome open_phase flow s
      → Done r (continue flow (λ _. forward r) s).1
  unfolding forward
  forward-Done (next a) r s h = inr (h.status_out, refl)
  forward-Done stop r s h = inl h

  pub admitted-Done :
      (env : Env W) (r : Request) (s : State W) → IsIn open_phase s → Done r (admitted env r s).1
  unfolding admitted ◌>>=◌
  admitted-Done env r s h =
      let (flow, s') = checks env r s in forward-Done flow r s' ((checks-Leads env r).at s h)
