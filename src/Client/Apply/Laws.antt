-- ===== src/Client/Apply/Laws.antt =====
-- What a read finds after the functions of `Client.Apply`, on an API server with no other writer.
use cluster_monitoring_opera.Base.{
  String, ◌<>◌, Bool, true, false, string_eq, starts_with, ◌≡◌, refl, ◌∙◌, ap, subst₂, arith, Error,
  Result, ok, err, M, pure, wrapped, ignore, attempt, >>=-eq-ok, attempt-eq-ok, wrapped-eq-ok,
  ignore-eq-ok, ◌⊎◌, inl, inr,
}
use cluster_monitoring_opera.Base.Dict
use cluster_monitoring_opera.Client.{Labels, Resource, Contents, Endpoint, Client}
use cluster_monitoring_opera.Client.Metadata.{
  metadata_prefix, merge_metadata, is_empty, IsMergo, merge_metadata_labels,
}
use cluster_monitoring_opera.Client.Apply.{
  on_get, create_or, update, create_or_update, merged, merged_at_version, create_or_update_secret,
  create_or_update_config_map, create_or_update_service_monitor, create_if_not_exist_secret,
}

-- The objects carry the same content; the server sets the resource version.
pub record Agrees {B : Type 0} (o o' : Resource B) : Type 0 where
  pub body : o'.body ≡ o.body
  pub labels : o'.meta.labels ≡ o.meta.labels
  pub annotations : o'.meta.annotations ≡ o.meta.annotations
  pub namespace : o'.meta.namespace ≡ o.meta.namespace
  pub name : o'.meta.name ≡ o.meta.name

-- What the API server documents of a kind whose objects nobody else writes: after a create or an
-- update has succeeded, a read returns what that call returned, with the content that was sent.
pub record IsStore {S B : Type 0} (ep : Endpoint S B) : Type 0 where
  pub get-create :
      (o o' : Resource B) (s s' : S)
      → ep.create o s ≡ (ok o', s')
      → (ep.get o.meta.namespace o.meta.name s' ≡ (ok o', s')) × Agrees o o'
  pub get-update :
      (o o' : Resource B) (s s' : S)
      → ep.update o s ≡ (ok o', s')
      → (ep.get o.meta.namespace o.meta.name s' ≡ (ok o', s')) × Agrees o o'

-- The object that stands for a desired one: it has its content, each label that the desired one sets
-- to a text, and of the keys that the operator owns just those of the desired one.
pub record Applied {B : Type 0} (o o' : Resource B) : Type 0 where
  pub body : o'.body ≡ o.body
  pub set_labels :
      (k : String)
      → is_empty (Dict.lookup k o.meta.labels) ≡ false
      → Dict.lookup k o'.meta.labels ≡ Dict.lookup k o.meta.labels
  pub owned_labels :
      (k : String)
      → starts_with k metadata_prefix ≡ true
      → Dict.lookup k o'.meta.labels ≡ Dict.lookup k o.meta.labels

-- A read of the object's name finds it applied.
abbrev pub Finds : {S B : Type 0} → Endpoint S B → Resource B → S → Type 0
Finds {B} ep o s =
    (o' : Resource B) × (ep.get o.meta.namespace o.meta.name s ≡ (ok o', s)) × Applied o o'

-- A read that is followed by success has found no object, or one to go on with.
pub on_get-cases :
    {S A : Type 0} (is_not_found : Error → Bool) (existing : Result A) (missing : M S (Unit {0}))
    (text : String) (found : A → M S (Unit {0})) (t s' : S)
    → on_get is_not_found existing missing text found t ≡ (ok tt, s')
    → (missing t ≡ (ok tt, s')) ⊎ ((a : A) × (existing ≡ ok a) × (found a t ≡ (ok tt, s')))
on_get-cases is_not_found (ok a) missing text found t s' h = inr (a, refl, h)
on_get-cases is_not_found (err e) missing text found t s' h = ground arith

module _ {S B : Type 0} (is_not_found : Error → Bool) (kind : String) (ep : Endpoint S B) where
  -- A function of this shape that succeeds has created the object, or has found one and gone on.
  pub create_or-cases :
      (o : Resource B) (found : Resource B → M S (Unit {0})) (s s' : S)
      → create_or is_not_found kind ep o found s ≡ (ok tt, s')
      → ((o' : Resource B) × (t : S) × (ep.create o t ≡ (ok o', s')))
        ⊎ ((o' : Resource B) × (t : S) × (ep.get o.meta.namespace o.meta.name s ≡ (ok o', t))
            × (found o' t ≡ (ok tt, s')))
  unfolding create_or
  create_or-cases o found s s' h =
      let get = ep.get o.meta.namespace o.meta.name in
      let create : M S (Unit {0}) =
        wrapped ("creating " <> kind <> " object failed") (ignore (ep.create o)) in
      let text = "retrieving " <> kind <> " object failed" in
      let rest : Result (Resource B) → M S (Unit {0}) =
        λ existing. on_get is_not_found existing create text found in
      let (existing, t, p, q) = >>=-eq-ok (attempt get) rest tt s s' h in
      elim (on_get-cases is_not_found existing create text found t s' q) [
        | inl made ↦
            let r = ignore-eq-ok (ep.create o) t s' (
              wrapped-eq-ok ("creating " <> kind <> " object failed") (ignore (ep.create o)) tt t s'
                made) in
            inl (r.0, t, r.1)
        | inr (o', e, k) ↦ inr (o', t, attempt-eq-ok get existing s t p ∙ ap (λ x. (x, t)) e, k)
      ]

  update-made :
      (o : Resource B) (s s' : S)
      → update is_not_found kind ep o s ≡ (ok tt, s')
      → (o' : Resource B) × (ep.update o s ≡ (ok o', s'))
  update-made o s s' h =
      ignore-eq-ok (ep.update o) s s' (wrapped-eq-ok _ (ignore (ep.update o)) tt s s' h)

-- What a function may change in the copy of the object that it writes: not its content.
pub record Changes {B : Type 0} (merge : Labels → Labels → Labels)
    (change : Resource B → Resource B → Resource B) : Type 0 where
  pub body : (o e : Resource B) → (change o e).body ≡ o.body
  pub labels :
      (o e : Resource B) → (change o e).meta.labels ≡ (merge_metadata merge o.meta e.meta).labels
  pub namespace : (o e : Resource B) → (change o e).meta.namespace ≡ o.meta.namespace
  pub name : (o e : Resource B) → (change o e).meta.name ≡ o.meta.name

module _ {S B : Type 0} (is_not_found : Error → Bool) (kind : String) (ep : Endpoint S B)
    (merge : Labels → Labels → Labels) (mergo : IsMergo merge) (store : IsStore ep) where
  create-Applied : (o o' : Resource B) → Agrees o o' → Applied o o'
  create-Applied o o' a = record {
    body = a.body;
    set_labels = λ k h. rw a.labels refl;
    owned_labels = λ k h. rw a.labels refl;
  }

  update-Applied :
      (change : Resource B → Resource B → Resource B) (o e o' : Resource B)
      → Changes merge change
      → Agrees (change o e) o'
      → Applied o o'
  update-Applied change o e o' c a = record {
    body = a.body ∙ c.body o e;
    set_labels = λ k h.
        ap (Dict.lookup k) (a.labels ∙ c.labels o e)
        ∙ ground (arith, merge_metadata_labels merge mergo k o.meta e.meta);
    owned_labels = λ k h.
        ap (Dict.lookup k) (a.labels ∙ c.labels o e)
        ∙ ground (arith, merge_metadata_labels merge mergo k o.meta e.meta);
  }

  pub create_or_update-Finds :
      (change : Resource B → Resource B → Resource B) (o : Resource B) (s s' : S)
      → Changes merge change
      → create_or_update is_not_found kind ep change o s ≡ (ok tt, s')
      → Finds ep o s'
  unfolding create_or_update
  create_or_update-Finds change o s s' c h =
      elim (create_or-cases is_not_found kind ep o _ s s' h) [
        | inl (o', t, p) ↦
            let (found, agrees) = store.get-create o o' t s' p in
            (o', found, create-Applied o o' agrees)
        | inr (e, t, p, q) ↦
            let (o', made) = update-made is_not_found kind ep (change o e) t s' q in
            let (found, agrees) = store.get-update (change o e) o' t s' made in
            (
              o',
              subst₂ (λ ns n. ep.get ns n s' ≡ (ok o', s')) (c.namespace o e) (c.name o e) found,
              update-Applied change o e o' c agrees,
            )
      ]

module _ {S B : Type 0} (c : Client S B) (mergo : IsMergo c.merge) where
  -- On a server that keeps what it accepts, and with mergo: a ConfigMap that was created or updated
  -- with no error is found applied, with its data, each label that it sets to a text, and no stale
  -- label of the operator.
  pub create_or_update_config_map-Finds :
      IsStore c.config_maps
      → (cm : Resource Contents) (s s' : S) → create_or_update_config_map c cm s ≡ (ok tt, s')
      → Finds c.config_maps cm s'
  unfolding create_or_update_config_map merge_metadata
  create_or_update_config_map-Finds store cm s s' h =
      create_or_update-Finds c.is_not_found "ConfigMap" c.config_maps c.merge mergo store (merged c)
        cm s s'
        (record {
          body = λ o e. refl;
          labels = λ o e. refl;
          namespace = λ o e. refl;
          name = λ o e. refl;
        })
        h

  -- On a server that keeps what it accepts, and with mergo: a Secret that was created or updated
  -- with no error is found applied, with its data, each label that it sets to a text, and no stale
  -- label of the operator.
  pub create_or_update_secret-Finds :
      IsStore c.secrets
      → (secret : Resource Contents) (s s' : S) → create_or_update_secret c secret s ≡ (ok tt, s')
      → Finds c.secrets secret s'
  unfolding create_or_update_secret merge_metadata
  create_or_update_secret-Finds store secret s s' h =
      create_or_update-Finds c.is_not_found "Secret" c.secrets c.merge mergo store (merged c) secret
        s s'
        (record {
          body = λ o e. refl;
          labels = λ o e. refl;
          namespace = λ o e. refl;
          name = λ o e. refl;
        })
        h

  -- The same of a ServiceMonitor, whose update also carries the existing resource version.
  pub create_or_update_service_monitor-Finds :
      IsStore c.service_monitors
      → (sm : Resource B) (s s' : S) → create_or_update_service_monitor c sm s ≡ (ok tt, s')
      → Finds c.service_monitors sm s'
  unfolding create_or_update_service_monitor merge_metadata
  create_or_update_service_monitor-Finds store sm s s' h =
      create_or_update-Finds c.is_not_found "ServiceMonitor" c.service_monitors c.merge mergo store
        (merged_at_version c) sm s s'
        (record {
          body = λ o e. refl;
          labels = λ o e. refl;
          namespace = λ o e. refl;
          name = λ o e. refl;
        })
        h

-- A Secret that exists is left as it is: a success leaves what was there, or creates what was not.
pub create_if_not_exist_secret_finds :
    {S B : Type 0} (c : Client S B) (secret : Resource Contents) (s s' : S)
    → create_if_not_exist_secret c secret s ≡ (ok tt, s')
    → ((o' : Resource Contents) × (t : S) × (c.secrets.create secret t ≡ (ok o', s')))
      ⊎ ((o' : Resource Contents) × (c.secrets.get secret.meta.namespace secret.meta.name s
            ≡ (ok o', s')))
unfolding create_if_not_exist_secret
create_if_not_exist_secret_finds c secret s s' h =
    elim (create_or-cases c.is_not_found "Secret" c.secrets secret (λ _. pure tt) s s' h) [
      | inl made ↦ inl made
      | inr (o', t, p, q) ↦ inr (o', p ∙ ground arith)
    ]
