-- ===== src/Manifests/Rotation/Laws.antt =====
-- When the certificates for GRPC are rotated, and what a secret holds then.
use Prim.Native.Nat.{◌^◌}
use cluster_monitoring_opera.Base.{
  ℕ, ◌+◌, ◌-◌, ◌*◌, ◌≤◌, ◌<◌, String, Bool, true, false, ◌||◌, Option, none, some, List, [], ◌∷◌,
  ltb, string_eq, if◌then◌else◌, ◌≡◌, refl, ap, ◌∙◌, ◌⊎◌, inl, inr, arith, Result, ok, err, Ensures,
  pure-Ensures, >>=-Ensures, Bool-cases,
}
use cluster_monitoring_opera.Base.Dict
use cluster_monitoring_opera.Client.{Resource, Contents}
use cluster_monitoring_opera.Manifests.Rotation.{
  Certificate, CertificateConfig, Crypto, latest_time, needs_new_cert, forced_rotate, has_key,
  entries_of, unforced, by_age, by_ca, current_ca, new_ca, rotate_if, rotate_grpc_secret,
}
use cluster_monitoring_opera.Manifests.Rotation.Issued.{Issued, issue_certificates-Issued}

-- For a certificate of at most 292 years, what an int64 holds: a new one is needed, and more than
-- four fifths of the lifetime have passed; or none is needed, and the certificate has not expired and
-- is at most four nanoseconds past four fifths.
pub needs_new_cert-bounds :
    (not_before not_after now : ℕ)
    → not_before ≤ not_after
    → not_after - not_before < 2 ^ 63
    → (needs_new_cert not_before not_after now ≡ true)
        × (4 * (not_after - not_before) < 5 * (now - not_before))
      ⊎ (needs_new_cert not_before not_after now ≡ false)
        × (now ≤ not_after)
        × (5 * (now - not_before) ≤ 4 * (not_after - not_before) + 4)
unfolding needs_new_cert
needs_new_cert-bounds not_before not_after now order short =
    elim (Bool-cases (ltb (latest_time not_before not_after) now)) [
      | inl late ↦ inl (late, ground arith)
      | inr early ↦ inr (early, ground arith, ground arith)
    ]

module _ {S X K : Type 0} (cr : Crypto S X K) where
  -- The CA of the secret can be read, and at a time that the clock gave it needed no new certificate.
  abbrev pub IsFresh : Contents → Type 0
  IsFresh m =
      (crt key : String) × (ca : CertificateConfig X K) × (cert : Certificate X) × (rest : List
        (Certificate X))
      × (now : ℕ) × (u v : S) × (Dict.lookup "ca.crt" m ≡ some crt)
      × (Dict.lookup "ca.key" m ≡ some key)
      × (cr.get_ca_from_bytes crt key ≡ ok ca)
      × (ca.certs ≡ cert ∷ rest)
      × (cr.now u ≡ (ok now, v))
      × (needs_new_cert cert.not_before cert.not_after now ≡ false)

  -- The CA that was read from a secret, and whether it is missing or old.
  abbrev pub WasRead : Resource (Option Contents) → Option (CertificateConfig X K) × Bool → Type 0
  WasRead s x =
      (u v : S) × (current_ca cr (Dict.lookup "ca.crt" (entries_of s.body))
          (Dict.lookup "ca.key" (entries_of s.body)) u
        ≡ (ok x, v))

  -- A CA that was made anew, or for the key of one before.
  abbrev pub Made : Option (CertificateConfig X K) → CertificateConfig X K → Type 0
  Made cur_ca ca = (u v : S) × (new_ca cr cur_ca u ≡ (ok ca, v))

  -- The test in a result, or a given value where there is none.
  abbrev of_pair : Result (Option (CertificateConfig X K) × Bool) → Bool → Bool
  of_pair (ok x) b = x.1
  of_pair (err _) b = b

  current_ca-IsFresh :
      (m : Contents) (o p : Option String)
      → Dict.lookup "ca.crt" m ≡ o
      → Dict.lookup "ca.key" m ≡ p
      → Ensures (current_ca cr o p) (λ x. x.1 ≡ false → IsFresh m)
  unfolding current_ca
  current_ca-IsFresh m none p a b = pure-Ensures _ _ (λ h. cc)
  current_ca-IsFresh m (some _) none a b = pure-Ensures _ _ (λ h. cc)
  current_ca-IsFresh m (some crt) (some key) a b = by_bytes (cr.get_ca_from_bytes crt key) refl
    where
      by_certs :
          (ca : CertificateConfig X K) (certs : List (Certificate X)) (now : ℕ) (u v : S)
          → cr.get_ca_from_bytes crt key ≡ ok ca
          → ca.certs ≡ certs
          → cr.now u ≡ (ok now, v)
          → Ensures (by_age cr ca now) (λ x. x.1 ≡ false → IsFresh m)
      by_certs ca [] now u v e q c = λ r s t h _. let h' = rw q at h in cc
      by_certs ca (cert ∷ rest) now u v e q c = λ r s t h late.
          let h' = rw q at h in
          let same : needs_new_cert cert.not_before cert.not_after now ≡ r.1 =
            ap (λ x. of_pair x.0 r.1) h' in
          (crt, key, ca, cert, rest, now, u, v, a, b, e, q, c, same ∙ late)

      by_bytes :
          (r : Result (CertificateConfig X K))
          → cr.get_ca_from_bytes crt key ≡ r
          → Ensures (by_ca cr r) (λ x. x.1 ≡ false → IsFresh m)
      by_bytes (err _) e = pure-Ensures _ _ (λ h. cc)
      by_bytes (ok ca) e =
          >>=-Ensures cr.now _ (λ now. (u v : S) × (cr.now u ≡ (ok now, v))) _
            (λ now u v c. (u, v, c)) λ now (u, v, c). by_certs ca ca.certs now u v e refl c

  -- What a rotation leaves: no order to rotate, and the secret as it was, with a CA that can be read
  -- and was fresh; or, where the CA was missing, could not be read or was old, or there was an order,
  -- what a new CA issues, made of the CA before if there was one.
  abbrev pub Rotated : Resource (Option Contents) → Resource (Option Contents) → Type 0
  Rotated s s' =
      (Dict.lookup forced_rotate s'.meta.annotations ≡ none)
      × ((s' ≡ s) × IsFresh (entries_of s.body)
          ⊎ ((cur_ca : Option (CertificateConfig X K)) × (rotate : Bool) × (ca : CertificateConfig X
                K)
              × WasRead s (cur_ca, rotate)
              × ((rotate || has_key forced_rotate s.meta.annotations) ≡ true)
              × Made cur_ca ca
              × Issued cr ca s'.body))

  rotate_if-Issued :
      (cur_ca : Option (CertificateConfig X K)) (s : Resource (Option Contents))
      → Ensures (rotate_if cr true cur_ca s) (λ s'.
        (ca : CertificateConfig X K) × Made cur_ca ca × Issued cr ca s'.body × (s'.meta ≡ s.meta))
  unfolding rotate_if
  rotate_if-Issued cur_ca s =
      >>=-Ensures (new_ca cr cur_ca) _ (Made cur_ca) _ (λ ca u v e. (u, v, e))
        λ ca made s' t t' h.
          let (issued, kept) = issue_certificates-Issued cr ca s s' t t' h in
          (ca, made, issued, kept)

  order_gone :
      (s : Resource (Option Contents))
      → Dict.lookup forced_rotate (unforced s).meta.annotations ≡ none
  order_gone s = ground (arith, Dict.lookup-erase forced_rotate forced_rotate s.meta.annotations)

  by_force :
      (s : Resource (Option Contents)) (o : Option String)
      → Dict.lookup forced_rotate s.meta.annotations ≡ o
      → (rotate : Bool) (cur_ca : Option (CertificateConfig X K)) → WasRead s (cur_ca, rotate)
      → (rotate ≡ false → IsFresh (entries_of s.body))
      → let forced = elim o as (λ _. Bool) [ none ↦ false | some _ ↦ true ] in
        Ensures
          (rotate_if cr (rotate || forced) cur_ca (if forced then unforced s else s))
          (Rotated s)
  unfolding rotate_if
  by_force s none a true cur_ca read fresh s' t t' h =
      let (ca, made, issued, kept) = rotate_if-Issued cur_ca s s' t t' h in
      (rw kept a, inr (cur_ca, true, ca, read, refl, made, issued))
  by_force s none a false cur_ca read fresh s' t t' h =
      let same : s' ≡ s = cc in (rw same a, inl (same, fresh refl))
  by_force s (some _) a true cur_ca read fresh s' t t' h =
      let (ca, made, issued, kept) = rotate_if-Issued cur_ca (unforced s) s' t t' h in
      (rw kept (order_gone s), inr (cur_ca, true, ca, read, refl, made, issued))
  by_force s (some _) a false cur_ca read fresh s' t t' h =
      let (ca, made, issued, kept) = rotate_if-Issued cur_ca (unforced s) s' t t' h in
      (rw kept (order_gone s), inr (cur_ca, false, ca, read, ap is_there a, made, issued))
    where
      is_there : Option String → Bool
      is_there o = elim o [ none ↦ false | some _ ↦ true ]

  -- A rotation that returns no error leaves no order to rotate, and a secret that is as it was, with
  -- a CA that can be read and was fresh, or one that holds what a new CA has issued, each text under
  -- its name.
  pub rotate_grpc_secret-Rotated :
      (s s' : Resource (Option Contents)) (t t' : S)
      → rotate_grpc_secret cr s t ≡ (ok s', t')
      → Rotated s s'
  unfolding rotate_grpc_secret
  rotate_grpc_secret-Rotated s s' t t' h =
      let m = entries_of s.body in
      (>>=-Ensures (current_ca cr (Dict.lookup "ca.crt" m) (Dict.lookup "ca.key" m)) _
          (λ x. WasRead s x × (x.1 ≡ false → IsFresh m)) _
          (λ x u v e. ((u, v, e), current_ca-IsFresh m _ _ refl refl x u v e))
          λ (cur_ca, rotate) (read, fresh).
            by_force s (Dict.lookup forced_rotate s.meta.annotations) refl rotate cur_ca read fresh)
        s' t t' h
