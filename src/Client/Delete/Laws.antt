-- ===== src/Client/Delete/Laws.antt =====
-- What the deletions of pkg/client/client.go leave behind.
use cluster_monitoring_opera.Base.{
  String, ◌<>◌, Bool, true, List, [], ◌∷◌, ◌≡◌, ◌∙◌, ap, subst, inl, inr, Bool-cases, All, Error,
  Result, ok, err, wrapped, attempt, >>=-eq-ok, attempt-eq-ok, wrapped-eq-ok,
}
use cluster_monitoring_opera.Client.{Resource, Contents, Endpoint, Client}
use cluster_monitoring_opera.Client.Delete.{
  unless_missing, delete_named, delete_all, delete_hashed_config_map, hash_selector,
}

-- What the API server documents of deletions that nobody else undoes: "gone" is what a read finds
-- behind a delete that succeeded, and behind one that was answered by "not found"; a deletion
-- brings nothing back.
pub record IsGone {S A : Type 0} (is_not_found : Error → Bool) (ep : Endpoint S A)
    (Gone : String → String → S → Type 0) : Type 0 where
  pub deleted :
      (namespace name : String) (s s' : S)
      → ep.delete namespace name s ≡ (ok tt, s')
      → Gone namespace name s'
  pub missing :
      (namespace name : String) (e : Error) (s s' : S)
      → ep.delete namespace name s ≡ (err e, s')
      → is_not_found e ≡ true
      → Gone namespace name s'
  pub stays :
      (namespace name namespace' name' : String) (r : Result (Unit {0})) (s s' : S)
      → ep.delete namespace name s ≡ (r, s')
      → Gone namespace' name' s
      → Gone namespace' name' s'

module _ {S B A : Type 0} (c : Client S B) (ep : Endpoint S A) (Gone : String → String → S → Type 0)
    (gone : IsGone c.is_not_found ep Gone) where
  -- A deletion that returns no error leaves the object gone, also where it was gone before.
  pub delete_named-Gone :
      (namespace name : String) (s s' : S)
      → delete_named c ep namespace name s ≡ (ok tt, s')
      → Gone namespace name s'
  unfolding delete_named
  delete_named-Gone namespace name s s' h =
      let (deleted, t, p, q) =
        >>=-eq-ok (attempt (ep.delete namespace name)) (unless_missing c) tt s s' h in
      by_result deleted t (attempt-eq-ok (ep.delete namespace name) deleted s t p) q
    where
      by_result :
          (deleted : Result (Unit {0})) (t : S)
          → ep.delete namespace name s ≡ (deleted, t)
          → unless_missing c deleted t ≡ (ok tt, s')
          → Gone namespace name s'
      by_result (ok _) t p q = gone.deleted namespace name s s' (p ∙ ap (λ x. (ok tt, x.1)) q)
      by_result (err e) t p q = elim (Bool-cases (c.is_not_found e)) [
        | inl absent ↦
            gone.missing namespace name e s s'
              (p ∙ ap (λ x. (err e, x.1)) (let q' = rw absent at q in q')) absent
        | inr other ↦ let q' = rw other at q in cc
      ]

  delete_all_stays :
      (text namespace namespace' name' : String) (os : List (Resource A)) (s s' : S)
      → delete_all c ep text namespace os s ≡ (ok tt, s')
      → Gone namespace' name' s
      → Gone namespace' name' s'
  unfolding delete_all
  delete_all_stays text namespace namespace' name' [] s s' h g =
      subst (Gone namespace' name') (ap (λ x. x.1) h) g
  delete_all_stays text namespace namespace' name' (o ∷ os) s s' h g =
      let delete = ep.delete namespace o.meta.name in
      let (_, t, p, q) =
        >>=-eq-ok (wrapped (text <> namespace <> "/" <> o.meta.name) delete)
          (λ _. delete_all c ep text namespace os) tt s s' h in
      delete_all_stays text namespace namespace' name' os t s' q (
        gone.stays namespace o.meta.name namespace' name' (ok tt) s t
          (wrapped-eq-ok (text <> namespace <> "/" <> o.meta.name) delete tt s t p) g)

  -- A run over a list that returns no error leaves each object of the list gone.
  pub delete_all-Gone :
      (text namespace : String) (os : List (Resource A)) (s s' : S)
      → delete_all c ep text namespace os s ≡ (ok tt, s')
      → All (λ o. Gone namespace o.meta.name s') os
  unfolding delete_all
  delete_all-Gone text namespace [] s s' h = tt
  delete_all-Gone text namespace (o ∷ os) s s' h =
      let delete = ep.delete namespace o.meta.name in
      let (_, t, p, q) =
        >>=-eq-ok (wrapped (text <> namespace <> "/" <> o.meta.name) delete)
          (λ _. delete_all c ep text namespace os) tt s s' h in
      let made = wrapped-eq-ok (text <> namespace <> "/" <> o.meta.name) delete tt s t p in
      (
        delete_all_stays text namespace namespace o.meta.name os t s' q
            (gone.deleted namespace o.meta.name s t made),
        delete_all-Gone text namespace os t s' q,
      )

module _ {S B : Type 0} (c : Client S B) (Gone : String → String → S → Type 0)
    (gone : IsGone c.is_not_found c.config_maps Gone) where
  -- On a server where what was deleted stays gone: `DeleteHashedConfigMap` without an error has
  -- read the ConfigMaps with the prefix and another hash, and left every one of them gone.
  pub delete_hashed_config_map-Gone :
      (namespace prefix new_hash : String) (s s' : S)
      → delete_hashed_config_map c namespace prefix new_hash s ≡ (ok tt, s')
      → (items : List (Resource Contents)) × (t : S) × (c.config_maps.list namespace
            (hash_selector c prefix new_hash)
            s
          ≡ (ok items, t))
        × All (λ o. Gone namespace o.meta.name s') items
  unfolding delete_hashed_config_map
  delete_hashed_config_map-Gone namespace prefix new_hash s s' h =
      let ls = hash_selector c prefix new_hash in
      let text : String =
        "error listing configmaps in namespace " <> namespace <> " with label selector " <> ls in
      let list = c.config_maps.list namespace ls in
      let (items, t, p, q) =
        >>=-eq-ok (wrapped text list)
          (delete_all c c.config_maps "error deleting configmap: " namespace) tt s s' h in
      (
        items,
        t,
        wrapped-eq-ok text list items s t p,
        delete_all-Gone c c.config_maps Gone gone "error deleting configmap: " namespace items t s'
            q,
      )
