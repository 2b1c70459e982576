-- ===== src/Manifests/Rotation/Returns.antt =====
-- How a rotation ends, with libraries that make certificates.
use cluster_monitoring_opera.Base.{
  ℕ, ◌+◌, ◌-◌, ◌*◌, String, Bool, true, false, ◌||◌, Option, none, some, List, [], ◌∷◌, string_eq,
  if◌then◌else◌, ◌≡◌, refl, Result, ok, err, nil_map, M, pure, give, wrapped, attempt, Gives,
  pure-Gives, >>=-Gives,
}
use cluster_monitoring_opera.Base.Dict
use cluster_monitoring_opera.Client.{ObjectMeta, Resource, Contents}
use cluster_monitoring_opera.Manifests.Rotation.{
  with_key, Certificate, CertificateConfig, Crypto, forced_rotate, has_key, entries_of, unforced,
  first_cert, create_certificate, by_ca, current_ca, new_ca, set_pair, issue_certificates,
  rotate_if, rotate_grpc_secret, day, second,
}
use cluster_monitoring_opera.Tasks.Secrets.{wrap_unless_panic}
use cluster_monitoring_opera.Manifests.Rotation.Laws.{Rotated, rotate_grpc_secret-Rotated}

-- What is asked of the clock and the libraries: they make and encode certificates without an error,
-- and a CA or a certificate that was read has at least one part.
pub record Works {S X K : Type 0} (cr : Crypto S X K) : Type 0 where
  pub now : Gives cr.now (λ _. Unit {0})
  pub self_signed :
      (name : String) (days : ℕ) → Gives (cr.make_self_signed_ca_config name days) (λ _. Unit {0})
  pub create :
      (template parent : Certificate X) (priv : K)
      → Gives (cr.create_certificate template parent priv) (λ raw.
        (cert : Certificate X) × (rest : List (Certificate X)) × (cr.parse_certificates raw
          ≡ ok (cert ∷ rest)))
  pub pem : (cfg : CertificateConfig X K) → (p : String × String) × (cr.get_pem_bytes cfg ≡ ok p)
  pub client :
      (ca : CertificateConfig X K) (name : String) (lifetime : ℕ)
      → Gives (cr.make_client_certificate ca name lifetime) (λ _. Unit {0})
  pub server :
      (ca : CertificateConfig X K) (names : List String) (days : ℕ)
      → Gives (cr.make_server_cert ca names days) (λ _. Unit {0})
  pub read :
      (crt key : String) (ca : CertificateConfig X K)
      → cr.get_ca_from_bytes crt key ≡ ok ca
      → (cert : Certificate X) × (rest : List (Certificate X)) × (ca.certs ≡ cert ∷ rest)

-- The secret has a map of data.
abbrev pub HasData : Resource (Option Contents) → Type 0
HasData s = (m : Contents) × (s.body ≡ some m)

-- The CA has a certificate, where there is one.
abbrev HasCert : {X K : Type 0} → Option (CertificateConfig X K) → Type 0
HasCert none = Unit
HasCert {X} (some ca) =
    (cert : Certificate X) × (rest : List (Certificate X)) × (ca.certs ≡ cert ∷ rest)

module _ {S A : Type 0} where
  wrapped-Gives :
      (text : String) (m : M S A) (P : A → Type 0) → Gives m P → Gives (wrapped text m) P
  wrapped-Gives text m P g s = let (a, t, e, p) = g s in (a, t, rw e refl, p)

  give-Gives : (r : Result A) (P : A → Type 0) (a : A) → r ≡ ok a → P a → Gives {S = S} (give r) P
  give-Gives r P a e p s = (a, s, rw e refl, p)

  attempt-Gives_ok :
      (m : M S A) (P : A → Type 0) → Gives m P → Gives (attempt m) (λ r. (a : A) × (r ≡ ok a))
  attempt-Gives_ok m P g s = let (a, t, e, p) = g s in (ok a, t, rw e refl, (a, refl))

  first_cert-Gives :
      {X K : Type 0} (cr : Crypto S X K) (certs : List A)
      → (a : A) × (rest : List A) × (certs ≡ a ∷ rest)
      → Gives (first_cert cr certs) (λ _. Unit {0})
  first_cert-Gives cr certs (a, rest, e) s = (a, s, rw e refl, tt)

module _ {S X K : Type 0} (cr : Crypto S X K) (works : Works cr) where
  set_pair-Gives :
      (crt key : String) (pem : String × String) (s : Resource (Option Contents))
      → HasData s
      → Gives (set_pair cr crt key pem s) HasData
  unfolding set_pair
  set_pair-Gives crt key (a, b) s (m, e) t =
      (record s { body = some (Dict.insert key b (Dict.insert crt a m)) }, t, rw e refl, (_, refl))

  pem-Gives :
      (text : String) (cfg : CertificateConfig X K)
      → Gives {S = S} (wrapped text (give (cr.get_pem_bytes cfg))) (λ _. Unit {0})
  pem-Gives text cfg =
      let (p, e) = works.pem cfg in
      wrapped-Gives text _ _ (give-Gives (cr.get_pem_bytes cfg) (λ _. Unit {0}) p e tt)

  issue_certificates-Gives :
      (ca : CertificateConfig X K) (s : Resource (Option Contents))
      → HasData s
      → Gives (issue_certificates cr ca s) HasData
  unfolding issue_certificates
  issue_certificates-Gives ca s d =
      >>=-Gives (wrapped "error getting PEM bytes from CA" (give (cr.get_pem_bytes ca))) _ _ _
        (pem-Gives _ ca)
        λ pem _.
          >>=-Gives (set_pair cr "ca.crt" "ca.key" pem s) _ _ _ (set_pair-Gives _ _ pem s d)
            λ s₁ d₁.
              >>=-Gives
                (wrapped "error making client certificate" (
                  cr.make_client_certificate ca "thanos-querier"
                    (cr.default_certificate_lifetime_in_days * day)))
                _ _ _ (wrapped-Gives _ _ _ (works.client ca _ _))
                λ cfg _.
                  >>=-Gives
                    (wrapped "error getting PEM bytes for thanos querier client certificate"
                      (give (cr.get_pem_bytes cfg)))
                    _ _ _ (pem-Gives _ cfg)
                    λ pem _.
                      >>=-Gives
                        (set_pair cr "thanos-querier-client.crt" "thanos-querier-client.key" pem s₁)
                        _ _ _ (set_pair-Gives _ _ pem s₁ d₁)
                        λ s₂ d₂.
                          >>=-Gives
                            (wrapped "error making server certificate" (
                              cr.make_server_cert ca ("prometheus-grpc" ∷ [])
                                cr.default_certificate_lifetime_in_days))
                            _ _ _ (wrapped-Gives _ _ _ (works.server ca _ _))
                            λ cfg _.
                              >>=-Gives
                                (wrapped
                                  "error getting PEM bytes for prometheus-k8s server certificate"
                                  (give (cr.get_pem_bytes cfg)))
                                _ _ _ (pem-Gives _ cfg) λ pem _. set_pair-Gives _ _ pem s₂ d₂

  create_certificate-Gives :
      (template parent : Certificate X) (priv : K)
      → Gives (create_certificate cr template parent priv) (λ _. Unit {0})
  unfolding create_certificate
  create_certificate-Gives template parent priv =
      >>=-Gives (wrapped "error creating certificate" (cr.create_certificate template parent priv))
        _ _ _ (wrapped-Gives _ _ _ (works.create template parent priv))
        λ raw (cert, rest, e).
          >>=-Gives (wrapped "error parsing certificate" (give (cr.parse_certificates raw))) _
            (λ certs. (a : Certificate X) × (rest : List (Certificate X)) × (certs ≡ a ∷ rest)) _
            (wrapped-Gives _ _ _ (give-Gives _ _ (cert ∷ rest) e (cert, rest, refl)))
            (first_cert-Gives cr)

  new_ca-Gives :
      (cur_ca : Option (CertificateConfig X K))
      → HasCert cur_ca
      → Gives (new_ca cr cur_ca) (λ _. Unit {0})
  unfolding new_ca
  new_ca-Gives none h =
      >>=-Gives cr.now _ _ _ works.now λ now _. wrapped-Gives _ _ _ (works.self_signed _ _)
  new_ca-Gives (some ca) h =
      >>=-Gives (first_cert cr ca.certs) _ _ _ (first_cert-Gives cr ca.certs h) λ cert _.
        >>=-Gives cr.now _ _ _ works.now λ now _.
          let template : Certificate X = record cert {
            not_before = now - second;
            not_after = now + cr.default_certificate_lifetime_in_days * day;
            serial_number = cert.serial_number + 1;
          } in
          >>=-Gives (attempt (create_certificate cr template template ca.key)) (with_key cr ca.key)
            _ _ (attempt-Gives_ok _ _ (create_certificate-Gives template template ca.key))
            λ created (new, e).
              >>=-Gives (give (wrap_unless_panic "error rotating CA" created))
                (λ new. pure (record { certs = new ∷ []; key = ca.key })) (λ _. Unit {0}) _
                (give-Gives _ _ new (rw e refl) tt)
                λ new _. pure-Gives _ (record { certs = new ∷ []; key = ca.key }) tt

  current_ca-Gives : (o p : Option String) → Gives (current_ca cr o p) (λ x. HasCert x.0)
  unfolding current_ca
  current_ca-Gives none p = pure-Gives _ _ tt
  current_ca-Gives (some _) none = pure-Gives _ _ tt
  current_ca-Gives (some crt) (some key) = by_bytes (cr.get_ca_from_bytes crt key) refl
    where
      by_bytes :
          (r : Result (CertificateConfig X K))
          → cr.get_ca_from_bytes crt key ≡ r
          → Gives (by_ca cr r) (λ x. HasCert x.0)
      by_bytes (err _) e = pure-Gives _ _ tt
      by_bytes (ok ca) e = >>=-Gives cr.now _ _ _ works.now λ now _.
          >>=-Gives (first_cert cr ca.certs) _ _ _
            (first_cert-Gives cr ca.certs (works.read crt key ca e))
            λ cert _. pure-Gives _ _ (works.read crt key ca e)

  rotate_if-Gives :
      (rotate : Bool) (cur_ca : Option (CertificateConfig X K)) (s : Resource (Option Contents))
      → HasCert cur_ca
      → HasData s
      → Gives (rotate_if cr rotate cur_ca s) HasData
  unfolding rotate_if
  rotate_if-Gives false cur_ca s h d = pure-Gives _ _ d
  rotate_if-Gives true cur_ca s h d =
      >>=-Gives (new_ca cr cur_ca) _ _ _ (new_ca-Gives cur_ca h)
        λ ca _. issue_certificates-Gives ca s d

  pub rotate_grpc_secret-Gives :
      (s : Resource (Option Contents))
      → HasData s
      → (t : S)
      → (s' : Resource (Option Contents)) × (t' : S) × (rotate_grpc_secret cr s t ≡ (ok s', t'))
        × Rotated cr s s'
  unfolding rotate_grpc_secret
  rotate_grpc_secret-Gives s d t =
      let m = entries_of s.body in
      let forced = has_key forced_rotate s.meta.annotations in
      let (s', t', e, _) =
        (>>=-Gives (current_ca cr (Dict.lookup "ca.crt" m) (Dict.lookup "ca.key" m)) _ _ HasData
            (current_ca-Gives _ _)
            λ (cur_ca, rotate) h.
              rotate_if-Gives (rotate || forced) cur_ca (if forced then unforced s else s) h
                (kept forced d))
          t in
      (s', t', e, rotate_grpc_secret-Rotated cr s s' t t' e)
    where
      kept : (b : Bool) → HasData s → HasData (if b then unforced s else s)
      kept true d = d
      kept false d = d

  rotate_nil :
      (s : Resource (Option Contents)) (t : S)
      → s.body ≡ none
      → (t' : S) × (rotate_if cr true none s t ≡ (err nil_map, t'))
  unfolding rotate_if issue_certificates set_pair
  rotate_nil s t e =
      let (ca, u, p, _) = new_ca-Gives none tt t in
      let (pem, q) = works.pem ca in (u, rw p (rw q (rw e refl)))

  -- Where the clock and the libraries work: for a secret without a map of data, `RotateGRPCSecret`
  -- ends with the panic of a write to a nil map, at every time.
  pub rotate_grpc_secret_nil :
      (meta : ObjectMeta) (t : S)
      → (t' : S) × (rotate_grpc_secret cr (record { meta = meta; body = none }) t
          ≡ (err nil_map, t'))
  unfolding rotate_grpc_secret current_ca Dict.lookup
  rotate_grpc_secret_nil meta t =
      let s : Resource (Option Contents) = record { meta = meta; body = none } in
      rotate_nil (if has_key forced_rotate meta.annotations then unforced s else s) t
        (still (has_key forced_rotate meta.annotations))
    where
      still :
          (b : Bool)
          → (if b
              then unforced (record { meta = meta; body = none })
              else record { meta = meta; body = none }).body
            ≡ none
      still true = refl
      still false = refl
