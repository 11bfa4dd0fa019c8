-- ===== src/Config/Load/Credentials.antt =====
-- What a configuration that loads has for credentials.
use s3proxy4gcs.Base.{
  ◌≡◌, ◌≢◌, refl, ap, ◌∙◌, false, not, ◌&&◌, Option, [], ◌∷◌, Text, Dict, codes, is_nil, arith,
  Bool-cases, inl, inr,
}
use mathlib.Core.Path.{subst}
use s3proxy4gcs.Base.Result.{Result, ok, err, ◌>>=◌, >>=-eq-ok}
use s3proxy4gcs.CredStore.{ParseError, parse_json}
use s3proxy4gcs.CredStore.Parsing.{AllFilled, parse_iff}
use s3proxy4gcs.CredStore.Watch.Reload.{load_file-AllFilled}
use s3proxy4gcs.Config.{Settings}
use s3proxy4gcs.Config.Env.{Environment, get_env}
use s3proxy4gcs.Config.Load.{
  Fatal, invalid_credentials_file, invalid_credentials, Source, file, inline, legacy, nowhere,
  or_fatal, settings, validate, load_config, load_hmac_credentials, legacy_credentials, proxy_ak,
  proxy_sk,
}

-- What each source gives: a map without blanks, the one pair, or nothing; only a file has a path.
abbrev pub IsFrom : Dict Text → Text → Source → Type 0
IsFrom creds path nowhere = (creds ≡ []) × (path ≡ [])
IsFrom creds path legacy = (creds ≢ []) × (path ≡ [])
IsFrom creds path inline = (creds ≢ []) × AllFilled creds × (path ≡ [])
IsFrom creds path file = (creds ≢ []) × AllFilled creds

abbrev IsSound : Result Fatal (Dict Text × Text × Source) → Type 0
IsSound (ok (creds, path, source)) = IsFrom creds path source
IsSound (err e) = Unit

module _ (unmarshal : Text → Option (Dict Text)) (read_file : Text → Option Text)
    (env : Environment) where
  parse_json-AllFilled :
      (m : Dict Text) (raw : Text) → parse_json unmarshal raw ≡ ok m → (m ≢ []) × AllFilled m
  unfolding parse_json
  parse_json-AllFilled m raw e =
      let (_, _, ne, filled) = (parse_iff unmarshal raw m).0 e in (ne, filled)

  pub validate-eq-ok : (t s : Settings) → validate unmarshal read_file env t ≡ ok s → t ≡ s
  unfolding validate
  validate-eq-ok t s h =
      elim (Bool-cases
        (not t.dry_run && (is_nil t.hmac_credentials && is_nil t.credentials_file))) [
          | inl e ↦ absurd (ground (arith, e))
          | inr e ↦ ground (arith, e)
        ]

  -- A configuration that loads is that of the environment with some credentials.
  pub load_config-eq-ok :
      (s : Settings)
      → load_config unmarshal read_file env ≡ ok s
      → (creds : Dict Text) × (path : Text) × (source : Source) × (load_hmac_credentials unmarshal
            read_file env
            (proxy_ak env)
            (proxy_sk env)
          ≡ ok (creds, path, source))
        × (validate unmarshal read_file env (settings env creds path source) ≡ ok s)
  unfolding load_config
  load_config-eq-ok s h =
      let ((creds, path, source), loaded, valid) =
        >>=-eq-ok (load_hmac_credentials unmarshal read_file env (proxy_ak env) (proxy_sk env)) _
          h in
      (creds, path, source, loaded, valid)

  or_fatal-IsSound :
      (f : ParseError → Fatal) (path : Text) (source : Source) (r : Result ParseError (Dict Text))
      → ((m : Dict Text) → r ≡ ok m → IsFrom m path source)
      → IsSound (or_fatal f r >>= λ m. ok (m, path, source))
  or_fatal-IsSound f path source (ok m) h = h m refl
  or_fatal-IsSound f path source (err e) h = tt

  legacy_credentials-IsSound : (ak sk : Text) → IsSound (ok (legacy_credentials env ak sk))
  unfolding legacy_credentials
  legacy_credentials-IsSound [] sk = (refl, refl)
  legacy_credentials-IsSound (c ∷ ak) [] = (refl, refl)
  legacy_credentials-IsSound (c ∷ ak) (d ∷ sk) = (ground arith, refl)

  load_hmac_credentials-IsSound :
      (ak sk : Text) → IsSound (load_hmac_credentials unmarshal read_file env ak sk)
  unfolding load_hmac_credentials
  load_hmac_credentials-IsSound ak sk =
      let path = get_env env (codes "HMAC_CREDENTIALS_FILE") [] in
      let raw = get_env env (codes "HMAC_CREDENTIALS") [] in
      elim (Bool-cases (is_nil path)) [
        | inr e ↦ rw e (
            or_fatal-IsSound invalid_credentials_file path file _
              (λ m. load_file-AllFilled unmarshal path (read_file path) m))
        | inl e ↦ elim (Bool-cases (is_nil raw)) [
          | inr e' ↦
              rw (e, e')
                (or_fatal-IsSound invalid_credentials [] inline _ (λ m e''.
                  let (ne, filled) = parse_json-AllFilled m raw e'' in (ne, filled, refl)))
          | inl e' ↦ rw (e, e') (legacy_credentials-IsSound ak sk)
        ]
      ]

  live-ne-nil :
      (t s : Settings) (source : Source)
      → IsFrom t.hmac_credentials t.credentials_file source
      → validate unmarshal read_file env t ≡ ok s
      → t.dry_run ≡ false
      → t.hmac_credentials ≢ []
  unfolding validate
  live-ne-nil t s nowhere (none_given, no_file) valid live =
      absurd (ground (arith, none_given, no_file))
  live-ne-nil t s legacy h valid live = h.0
  live-ne-nil t s file h valid live = h.0
  live-ne-nil t s inline h valid live = h.0

  -- The credentials of a configuration that loads are those of one source.
  pub load_config-IsFrom :
      (s : Settings)
      → load_config unmarshal read_file env ≡ ok s
      → (source : Source) × IsFrom s.hmac_credentials s.credentials_file source
  load_config-IsFrom s h =
      let (creds, path, source, loaded, valid) = load_config-eq-ok s h in
      let t = settings env creds path source in
      let sound : IsFrom creds path source =
        subst IsSound loaded (load_hmac_credentials-IsSound (proxy_ak env) (proxy_sk env)) in
      let of_t : IsFrom t.hmac_credentials t.credentials_file source = unfold settings in sound in
      (
        source,
        subst (λ u. IsFrom u.hmac_credentials u.credentials_file source) (validate-eq-ok t s valid)
            of_t,
      )

  -- A process that is to reach the storage service (not a dry run) and whose configuration loads
  -- has at least one pair of credentials.
  pub load_config-live :
      (s : Settings)
      → load_config unmarshal read_file env ≡ ok s
      → s.dry_run ≡ false
      → s.hmac_credentials ≢ []
  load_config-live s h live =
      let (creds, path, source, loaded, valid) = load_config-eq-ok s h in
      let t = settings env creds path source in
      let same = validate-eq-ok t s valid in
      let sound : IsFrom creds path source =
        subst IsSound loaded (load_hmac_credentials-IsSound (proxy_ak env) (proxy_sk env)) in
      let filled : t.hmac_credentials ≢ [] =
        unfold settings in live-ne-nil t s source sound valid (ap (λ u. u.dry_run) same ∙ live) in
      subst (λ u. u.hmac_credentials ≢ []) same filled
