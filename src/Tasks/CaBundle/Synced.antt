-- ===== src/Tasks/CaBundle/Synced.antt =====
-- What a trusted CA bundle that was synced holds.
use cluster_monitoring_opera.Base.{
  ℕ, suc, ◌*◌, String, Bool, true, Option, none, some, string_eq, ◌≡◌, refl, ◌≢◌, ◌∙◌, ap, sym,
  subst, arith, Error, Result, ok, err, or_wrap, M, pure, give, wrapped, ◌>>◌, >>=-eq-ok,
  wrapped-eq-ok,
}
use cluster_monitoring_opera.Base.Dict
use cluster_monitoring_opera.Client.{Resource, Contents, Client}
use cluster_monitoring_opera.Client.Apply.{
  create_if_not_exist_config_map, create_or_update_config_map,
}
use cluster_monitoring_opera.Client.Delete.{delete_hashed_config_map}
use cluster_monitoring_opera.Client.Wait.Polling.{rounds, rounds-eq-ok}
use cluster_monitoring_opera.Tasks.CaBundle.{
  trusted_ca_bundle_key, Polled, with_last, last_read, hash_of, bundle_ready, wait_for_bundle,
  sync_trusted_ca_bundle, apply_and_clean, by_read, by_value,
}

-- What the API machinery documents of `wait.PollImmediate`: it makes some rounds, at least one.
pub record IsPollImmediate {S B : Type 0} (c : Client S B) : Type 1 where
  pub poll_rounds :
      (L : Type 0) (interval seconds : ℕ) (condition : M (S × L) Bool) (t : S × L)
      → (n : ℕ) × (c.poll_immediate L interval seconds condition t ≡ rounds (suc n) condition t)

-- The bundle is there, and not empty.
abbrev pub HasBundle : Resource Contents → Type 0
HasBundle cm = (v : String) × (Dict.lookup trusted_ca_bundle_key cm.body ≡ some v) × (v ≢ "")

last_read-eq-ok :
    (text : String) (o : Option (Resource Contents)) (last : Option Error) (r : Result (Unit {0}))
    (cm : Resource Contents)
    → last_read o (or_wrap text (with_last last r)) ≡ ok cm
    → (r ≡ ok tt) × (o ≡ some cm)
last_read-eq-ok text none none (ok _) cm h = cc
last_read-eq-ok text none (some _) (ok _) cm h = cc
last_read-eq-ok text (some x) none (ok _) cm h = (refl, cc)
last_read-eq-ok text (some x) (some _) (ok _) cm h = (refl, cc)
last_read-eq-ok text o none (err x) cm h = cc
last_read-eq-ok text o (some _) (err x) cm h = ground arith

module _ {S A : Type 0} where
  pure-eq-ok : (x y : A) (s s' : S) → pure x s ≡ (ok y, s') → (x ≡ y) × (s ≡ s')
  pure-eq-ok x y s s' h = (cc, cc)

  give-eq-ok :
      (text : String) (r : Result A) (y : A) (s s' : S)
      → wrapped text (give r) s ≡ (ok y, s')
      → (r ≡ ok y) × (s ≡ s')
  give-eq-ok text (ok x) y s s' h = (cc, cc)
  give-eq-ok text (err e) y s s' h = cc

module _ {S B : Type 0} (c : Client S B) where
  by_value-eq-true :
      (cm : Resource Contents) (last : Option Error) (s : S) (o : Option String)
      (cm' : Option (Resource Contents)) (last' : Option Error) (s' : S)
      → Dict.lookup trusted_ca_bundle_key cm.body ≡ o
      → by_value c cm last s o ≡ (ok true, (s', (cm', last')))
      → (cm' ≡ some cm) × HasBundle cm × (s ≡ s')
  by_value-eq-true cm last s none cm' last' s' p h = cc
  by_value-eq-true cm last s (some v) cm' last' s' p h = ground arith

  bundle_ready-eq-true :
      (ca : Resource Contents) (t : S × Polled) (cm' : Option (Resource Contents))
      (last' : Option Error) (s' : S)
      → bundle_ready c ca t ≡ (ok true, (s', (cm', last')))
      → (cm : Resource Contents) × (cm' ≡ some cm)
        × (c.config_maps.get ca.meta.namespace ca.meta.name t.0 ≡ (ok cm, s'))
        × HasBundle cm
  bundle_ready-eq-true ca (s, (old, last)) cm' last' s' h =
      go (c.config_maps.get ca.meta.namespace ca.meta.name s).0
        (c.config_maps.get ca.meta.namespace ca.meta.name s).1 refl h
    where
      go :
          (r : Result (Resource Contents)) (u : S)
          → c.config_maps.get ca.meta.namespace ca.meta.name s ≡ (r, u)
          → by_read c last r u ≡ (ok true, (s', (cm', last')))
          → (cm : Resource Contents) × (cm' ≡ some cm)
            × (c.config_maps.get ca.meta.namespace ca.meta.name s ≡ (ok cm, s'))
            × HasBundle cm
      go (err e) u p k = cc
      go (ok cm) u p k =
          let (a, b, d) =
            by_value-eq-true cm last u (Dict.lookup trusted_ca_bundle_key cm.body) cm' last' s' refl
              k in
          (cm, a, p ∙ ap (λ x. (ok cm, x)) d, b)

  module _ (polls : IsPollImmediate c) where
    -- The wait returns a ConfigMap that its last read has found with a bundle.
    wait_for_bundle-HasBundle :
        (ca cm : Resource Contents) (s s' : S)
        → wait_for_bundle c ca s ≡ (ok cm, s')
        → HasBundle cm
          × (u : S) × (c.config_maps.get ca.meta.namespace ca.meta.name u ≡ (ok cm, s'))
    unfolding wait_for_bundle
    wait_for_bundle-HasBundle ca cm s s' h =
        let st : S × Polled = (s, (none, none)) in
        let (n, e) = polls.poll_rounds Polled 5 (5 * 60) (bundle_ready c ca) st in
        let run = c.poll_immediate Polled 5 (5 * 60) (bundle_ready c ca) st in
        let (r_ok, cm_read) = last_read-eq-ok _ run.1.1.0 run.1.1.1 run.0 cm (ap (λ y. y.0) h) in
        let end : run ≡ (ok tt, (s', (some cm, run.1.1.1))) = ground arith in
        let (u, q) =
          rounds-eq-ok (suc n) (bundle_ready c ca) st (s', (some cm, run.1.1.1)) (sym e ∙ end) in
        let (found, a, b, d) = bundle_ready-eq-true ca u (some cm) run.1.1.1 s' q in
        let same : found ≡ cm = cc in
        (
          subst HasBundle same d,
          u.0,
          subst (λ y. c.config_maps.get ca.meta.namespace ca.meta.name u.0 ≡ (ok y, s')) same b,
        )

    module _ (hash : Resource Contents → String → Result (Resource Contents))
        (prefix : String) where
      apply_and_clean-eq-ok :
          (namespace : String) (x hashed : Resource Contents) (s s' : S)
          → apply_and_clean c prefix namespace x s ≡ (ok hashed, s')
          → (x ≡ hashed)
            × (v : S) × (create_or_update_config_map c x s ≡ (ok tt, v))
            × (delete_hashed_config_map c namespace prefix (hash_of x) v ≡ (ok tt, s'))
      unfolding apply_and_clean
      apply_and_clean-eq-ok namespace x hashed s s' h =
          let clean = delete_hashed_config_map c namespace prefix (hash_of x) in
          let text : String = "deleting old trusted CA bundle configmaps failed" in
          let (_, v, p, q) =
            >>=-eq-ok
              (wrapped "reconciling trusted CA bundle ConfigMap failed"
                (create_or_update_config_map c x))
              (λ _. wrapped text clean >> pure x) hashed s s' h in
          let (_, w, p', q') = >>=-eq-ok (wrapped text clean) (λ _. pure x) hashed v s' q in
          let (same, last) = pure-eq-ok x hashed w s' q' in
          (
            same,
            v,
            wrapped-eq-ok _ (create_or_update_config_map c x) tt s v p,
            wrapped-eq-ok text clean tt v w p' ∙ ap (λ y. (ok tt, y)) last,
          )

      -- Where a poll is rounds of its condition: a synced bundle is the hash of a ConfigMap that
      -- was read with a bundle in it; the hashed ConfigMap has then been applied, and after that
      -- those of other hashes have been deleted, both without an error.
      pub sync_trusted_ca_bundle-HasBundle :
          (trusted_ca hashed : Resource Contents) (s s' : S)
          → sync_trusted_ca_bundle c hash prefix trusted_ca s ≡ (ok hashed, s')
          → (ca cm : Resource Contents) × (t u v : S) × HasBundle cm
            × (c.config_maps.get ca.meta.namespace ca.meta.name t ≡ (ok cm, u))
            × (hash cm prefix ≡ ok hashed)
            × (create_or_update_config_map c hashed u ≡ (ok tt, v))
            × (delete_hashed_config_map c ca.meta.namespace prefix (hash_of hashed) v ≡ (ok tt, s'))
      unfolding sync_trusted_ca_bundle apply_and_clean
      sync_trusted_ca_bundle-HasBundle trusted_ca hashed s s' h =
          let (ca, t, _, q0) =
            >>=-eq-ok
              (wrapped " creating root trusted CA bundle ConfigMap failed"
                (create_if_not_exist_config_map c trusted_ca))
              _ hashed s s' h in
          let (cm, u, p1, q1) = >>=-eq-ok (wait_for_bundle c ca) _ hashed t s' q0 in
          let (x, u', p2, q2) =
            >>=-eq-ok (wrapped "hashing trusted CA bundle failed" (give (hash cm prefix)))
              (apply_and_clean c prefix ca.meta.namespace) hashed u s' q1 in
          let (hash_ok, stays) = give-eq-ok _ (hash cm prefix) x u u' p2 in
          let (same, v, applied, cleaned) =
            apply_and_clean-eq-ok ca.meta.namespace x hashed u' s' q2 in
          let (has, r, read) = wait_for_bundle-HasBundle ca cm t u p1 in
          (
            ca,
            cm,
            r,
            u,
            v,
            has,
            read,
            hash_ok ∙ ap ok same,
            subst (λ y. create_or_update_config_map c hashed y ≡ (ok tt, v)) (sym stays)
                (subst (λ y. create_or_update_config_map c y u' ≡ (ok tt, v)) same applied),
            subst
                (λ y.
                  delete_hashed_config_map c ca.meta.namespace prefix (hash_of y) v ≡ (ok tt, s'))
                same cleaned,
          )
