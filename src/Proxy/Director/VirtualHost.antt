-- ===== src/Proxy/Director/VirtualHost.antt =====
-- The conversion of a virtual-hosted request to the path style.
use s3proxy4gcs.Base.{
  ◌≡◌, ◌≢◌, refl, sym, ap, ◌∙◌, Option, none, some, [], ◌∷◌, ◌++◌, Text, All-append, Lacks, cut,
  cut_suffix, cut-append, cut_prefix-append, reverse, append_assoc, append-nil, is_nil,
  if◌then◌else◌, arith, ℕ,
}
use mathlib.Core.List.{reverse-append, reverse-reverse, reverse-cons}
use mathlib.Core.Path.{subst}
use s3proxy4gcs.Http.{Request}
use s3proxy4gcs.Proxy.Director.{without_port, rewrite_host, to_path_style}

Lacks-reverse : (b : ℕ) (s : Text) → Lacks b s → Lacks b (reverse s)
Lacks-reverse b [] h = tt
Lacks-reverse b (c ∷ s) (p, h) =
    subst (Lacks b) (sym (reverse-cons c s))
      (All-append (λ d. d ≢ b) (reverse s) (c ∷ []) (Lacks-reverse b s h) (p, tt))

cut_suffix-append : (s p : Text) → cut_suffix p (s ++ p) ≡ some s
unfolding cut_suffix
cut_suffix-append s p =
    ground (arith, reverse-append s p, cut_prefix-append (reverse p) (reverse s), reverse-reverse s)

-- A port, with its colon, or none.
abbrev pub port_suffix : Option Text → Text
port_suffix none = []
port_suffix (some port) = b':' ∷ port

-- A name without a colon, and behind it a port without one, if there is a port.
abbrev pub IsAuthority : Text → Option Text → Type 0
IsAuthority name none = Lacks b':' name
IsAuthority name (some port) = Lacks b':' port

cut-Lacks : (b : ℕ) (s : Text) → Lacks b s → cut b s ≡ none
unfolding cut
cut-Lacks b [] h = refl
cut-Lacks b (c ∷ s) (p, h) = ground (arith, cut-Lacks b s h)

reverse-port :
    (name port : Text) → reverse (name ++ b':' ∷ port) ≡ reverse port ++ b':' ∷ reverse name
reverse-port name port =
    reverse-append name (b':' ∷ port)
    ∙ (ap (λ t. t ++ reverse name) (reverse-cons b':' port)
        ∙ append_assoc (reverse port) (b':' ∷ []) (reverse name))

without_port-authority :
    (name : Text) (port : Option Text)
    → IsAuthority name port
    → without_port (name ++ port_suffix port) ≡ name
unfolding without_port
without_port-authority name none h =
    ground (arith, append-nil name, cut-Lacks b':' (reverse name) (Lacks-reverse b':' name h))
without_port-authority name (some port) h = ground (
  arith,
  reverse-port name port,
  cut-append b':' (reverse port) (reverse name) (Lacks-reverse b':' port h),
  reverse-reverse name,
)

rewrite_host-some :
    (base_domain bucket : Text) (r : Request)
    → base_domain ≢ []
    → bucket ≢ []
    → cut_suffix (b'.' ∷ base_domain) (without_port r.host) ≡ some bucket
    → rewrite_host base_domain r ≡ to_path_style bucket r
unfolding rewrite_host
rewrite_host-some base_domain bucket r set filled found = ground (arith, found)

-- Where a base domain is set, a request to the host `bucket.domain`, with a port or without one,
-- is sent with a slash and the bucket in front of its path, and in front of its encoded path if it
-- has one; nothing else of it changes.
pub rewrite_host-virtual :
    (base_domain bucket : Text) (port : Option Text) (r : Request)
    → base_domain ≢ []
    → bucket ≢ []
    → IsAuthority (bucket ++ b'.' ∷ base_domain) port
    → r.host ≡ (bucket ++ b'.' ∷ base_domain) ++ port_suffix port
    → rewrite_host base_domain r ≡ record r {
      path = b'/' ∷ (bucket ++ r.path);
      raw_path = if is_nil r.raw_path then [] else b'/' ∷ (bucket ++ r.raw_path);
    }
unfolding to_path_style
rewrite_host-virtual base_domain bucket port r set filled named same =
    rewrite_host-some base_domain bucket r set filled (
      ap (cut_suffix (b'.' ∷ base_domain))
        (ap without_port same ∙ without_port-authority _ port named)
      ∙ cut_suffix-append bucket (b'.' ∷ base_domain))
