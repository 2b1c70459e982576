-- ===== src/Manifests/Rotation/Issued.antt =====
-- What the issue of certificates puts into a secret.
use cluster_monitoring_opera.Base.{
  ◌*◌, String, false, Option, none, some, List, [], ◌∷◌, string_eq, ◌==◌, ◌≡◌, refl, ◌∙◌, subst,
  All, arith, Result, ok, M, give, wrapped, wrapped-eq-ok, Ensures, >>=-Ensures,
}
use cluster_monitoring_opera.Base.Dict
use cluster_monitoring_opera.Client.{ObjectMeta, Resource, Contents}
use cluster_monitoring_opera.Manifests.Rotation.{
  CertificateConfig, Crypto, set_pair, issue_certificates, day,
}

-- The map has the entry.
abbrev pub Holds : Contents → String × String → Type 0
Holds m (k, v) = Dict.lookup k m ≡ some v

abbrev pub HoldsAll : List (String × String) → Option Contents → Type 0
HoldsAll entries o = (m : Contents) × (o ≡ some m) × All (Holds m) entries

abbrev Differ : String → String → Type 0
Differ j k = (j == k) ≡ false

-- None of the entries has the key.
abbrev IsNew : String → List (String × String) → Type 0
IsNew j entries = All (λ e. Differ j e.0) entries

insert-HoldsAll :
    (entries : List (String × String)) (j v : String) (m : Contents)
    → IsNew j entries
    → All (Holds m) entries
    → All (Holds (Dict.insert j v m)) entries
insert-HoldsAll [] j v m n h = tt
insert-HoldsAll ((k, w) ∷ entries) j v m (other, n) (e, h) =
    (Dict.lookup-insert j k v m ∙ rw other e, insert-HoldsAll entries j v m n h)

insert-Holds_own : (k v : String) (m : Contents) → Holds (Dict.insert k v m) (k, v)
insert-Holds_own k v m = ground (arith, Dict.lookup-insert k k v m)

-- The entries that a pair of names has, for a pair of bytes.
abbrev pub pair :
    String → String → String × String → List (String × String) → List (String × String)
pair crt key (crt_bytes, key_bytes) rest = (crt, crt_bytes) ∷ (key, key_bytes) ∷ rest

-- The entries of the CA, the client and the server.
abbrev pub tls_entries :
    String × String → String × String → String × String → List (String × String)
tls_entries ca client server = pair "prometheus-server.crt" "prometheus-server.key" server (
    pair "thanos-querier-client.crt" "thanos-querier-client.key" client
      (pair "ca.crt" "ca.key" ca []))

ca_names : Differ "ca.key" "ca.crt"
unfolding string_eq
ca_names = refl

client_names :
    (a b : String)
    → Differ "thanos-querier-client.key" "thanos-querier-client.crt"
      × IsNew "thanos-querier-client.crt" (pair "ca.crt" "ca.key" (a, b) [])
      × IsNew "thanos-querier-client.key" (pair "ca.crt" "ca.key" (a, b) [])
unfolding string_eq
client_names a b = (refl, (refl, (refl, tt)), (refl, (refl, tt)))

server_names :
    (a b c d : String)
    → let entries =
        pair "thanos-querier-client.crt" "thanos-querier-client.key"
          (c, d)
          (pair "ca.crt" "ca.key" (a, b) []) in
      Differ "prometheus-server.key" "prometheus-server.crt"
      × IsNew "prometheus-server.crt" entries
      × IsNew "prometheus-server.key" entries
unfolding string_eq
server_names a b c d =
    (refl, (refl, (refl, (refl, (refl, tt)))), (refl, (refl, (refl, (refl, tt)))))

module _ {S A : Type 0} where
  wrapped-Ensures :
      (text : String) (m : M S A) → Ensures (wrapped text m) (λ a. (u v : S) × (m u ≡ (ok a, v)))
  wrapped-Ensures text m a s t h = (s, t, wrapped-eq-ok text m a s t h)

  pem-Ensures :
      (text : String) (r : Result A) → Ensures {S = S} (wrapped text (give r)) (λ a. r ≡ ok a)
  pem-Ensures text r a s t h = let e = wrapped-eq-ok text (give r) a s t h in cc

module _ {S X K : Type 0} (cr : Crypto S X K) where
  -- A pair that was set is there, each text under its name, and so is what was there before.
  set_pair-HoldsAll :
      (entries : List (String × String)) (crt key : String) (pem : String × String)
      (meta : ObjectMeta) (o : Option Contents)
      → Differ key crt
      → IsNew crt entries
      → IsNew key entries
      → ((m : Contents) → o ≡ some m → All (Holds m) entries)
      → Ensures
          (set_pair cr crt key pem (record { meta = meta; body = o }))
          (λ s. HoldsAll (pair crt key pem entries) s.body × (s.meta ≡ meta))
  unfolding set_pair
  set_pair-HoldsAll entries crt key pem meta none other a b before s' t t' h = cc
  set_pair-HoldsAll entries crt key (x, y) meta (some m) other a b before s' t t' h =
      let m₁ : Contents = Dict.insert crt x m in
      let m₂ : Contents = Dict.insert key y m₁ in
      let made : Resource (Option Contents) = record { meta = meta; body = some m₂ } in
      let same : made ≡ s' = cc in
      subst (λ z. HoldsAll (pair crt key (x, y) entries) z.body × (z.meta ≡ meta)) same
        (
          (
            m₂,
            refl,
            (
              Dict.lookup-insert key crt y m₁ ∙ rw other (insert-Holds_own crt x m),
              (
                insert-Holds_own key y m₁,
                insert-HoldsAll entries key y m₁ b
                    (insert-HoldsAll entries crt x m a (before m refl)),
              ),
            ),
          ),
          refl,
        )

  -- The same where the secret is known to hold entries.
  again :
      (entries : List (String × String)) (crt key : String) (pem : String × String)
      (s : Resource (Option Contents)) (meta : ObjectMeta)
      → Differ key crt
      → IsNew crt entries
      → IsNew key entries
      → HoldsAll entries s.body × (s.meta ≡ meta)
      → Ensures
          (set_pair cr crt key pem s)
          (λ s'. HoldsAll (pair crt key pem entries) s'.body × (s'.meta ≡ meta))
  again entries crt key pem s meta other a b ((m, e, all), same) s' t t' h =
      let (holds, kept) =
        set_pair-HoldsAll entries crt key pem s.meta s.body other a b
          (λ m' e'. let eq : m ≡ m' = cc in subst (λ x. All (Holds x) entries) eq all) s' t t' h in
      (holds, kept ∙ same)

  -- A secret that holds, under their names, the bytes of a CA and its key, and those of a client's and
  -- of a server's certificate with their keys, which the libraries have made of that CA.
  pub record Issued (ca : CertificateConfig X K) (o : Option Contents) : Type 0 where
    pub ca_pem : String × String
    pub client_pem : String × String
    pub server_pem : String × String
    pub client : CertificateConfig X K
    pub server : CertificateConfig X K
    pub client_made :
        (u v : S) × (cr.make_client_certificate ca "thanos-querier"
            (cr.default_certificate_lifetime_in_days * day)
            u
          ≡ (ok client, v))
    pub server_made :
        (u v : S) × (cr.make_server_cert ca
            ("prometheus-grpc" ∷ [])
            cr.default_certificate_lifetime_in_days
            u
          ≡ (ok server, v))
    pub ca_bytes : cr.get_pem_bytes ca ≡ ok ca_pem
    pub client_bytes : cr.get_pem_bytes client ≡ ok client_pem
    pub server_bytes : cr.get_pem_bytes server ≡ ok server_pem
    pub holds : HoldsAll (tls_entries ca_pem client_pem server_pem) o

  pub issue_certificates-Issued :
      (ca : CertificateConfig X K) (s : Resource (Option Contents))
      → Ensures (issue_certificates cr ca s) (λ s'. Issued ca s'.body × (s'.meta ≡ s.meta))
  unfolding issue_certificates
  issue_certificates-Issued ca s =
      >>=-Ensures (wrapped "error getting PEM bytes from CA" (give (cr.get_pem_bytes ca))) _ _ _
        (pem-Ensures _ (cr.get_pem_bytes ca))
        λ ca_pem ca_bytes.
          >>=-Ensures (set_pair cr "ca.crt" "ca.key" ca_pem s) _ _ _
            (set_pair-HoldsAll [] "ca.crt" "ca.key" ca_pem s.meta s.body ca_names tt tt (λ m _. tt))
            λ s₁ h₁.
              >>=-Ensures
                (wrapped "error making client certificate" (
                  cr.make_client_certificate ca "thanos-querier"
                    (cr.default_certificate_lifetime_in_days * day)))
                _ _ _ (wrapped-Ensures _ _)
                λ client client_made.
                  >>=-Ensures
                    (wrapped "error getting PEM bytes for thanos querier client certificate"
                      (give (cr.get_pem_bytes client)))
                    _ _ _ (pem-Ensures _ (cr.get_pem_bytes client))
                    λ client_pem client_bytes.
                      let (d, e, f) = client_names ca_pem.0 ca_pem.1 in
                      >>=-Ensures
                        (set_pair cr "thanos-querier-client.crt" "thanos-querier-client.key"
                          client_pem s₁)
                        _ _ _
                        (again (pair "ca.crt" "ca.key" ca_pem []) "thanos-querier-client.crt"
                          "thanos-querier-client.key" client_pem s₁ s.meta d e f h₁)
                        λ s₂ h₂.
                          >>=-Ensures
                            (wrapped "error making server certificate" (
                              cr.make_server_cert ca ("prometheus-grpc" ∷ [])
                                cr.default_certificate_lifetime_in_days))
                            _ _ _ (wrapped-Ensures _ _)
                            λ server server_made.
                              >>=-Ensures
                                (wrapped
                                  "error getting PEM bytes for prometheus-k8s server certificate"
                                  (give (cr.get_pem_bytes server)))
                                _ _ _ (pem-Ensures _ (cr.get_pem_bytes server))
                                λ server_pem server_bytes s' t t' x.
                                  let (d, e, f) =
                                    server_names ca_pem.0 ca_pem.1 client_pem.0 client_pem.1 in
                                  let (holds, kept) =
                                    again
                                      (pair "thanos-querier-client.crt" "thanos-querier-client.key"
                                        client_pem (pair "ca.crt" "ca.key" ca_pem []))
                                      "prometheus-server.crt" "prometheus-server.key" server_pem s₂
                                      s.meta d e f h₂ s' t t' x in
                                  (
                                    record {
                                      ca_pem = ca_pem;
                                      client_pem = client_pem;
                                      server_pem = server_pem;
                                      client = client;
                                      server = server;
                                      client_made = client_made;
                                      server_made = server_made;
                                      ca_bytes = ca_bytes;
                                      client_bytes = client_bytes;
                                      server_bytes = server_bytes;
                                      holds = holds;
                                    },
                                    kept,
                                  )
