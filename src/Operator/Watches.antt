-- ===== src/Operator/Watches.antt =====
-- The informers that `New` of pkg/operator/operator.go makes, and the way of an object from them to
-- the event handler.
pub mod Laws
use cluster_monitoring_opera.Base.{
  String, Bool, true, false, Option, none, some, List, [], ◌∷◌, ◌==◌, string_eq, if◌then◌else◌,
  ◌&&◌, ◌||◌, Result, ok, err,
}
use cluster_monitoring_opera.Operator.{Operator}
use cluster_monitoring_opera.Operator.Events.{handle_event}

-- The kinds of object that are watched.
pub data Kind : Type 0 where
  secret : Kind
  config_map : Kind

-- The function of an informer's handler that is called.
pub data Change : Type 0 where
  added : Change
  updated : Change
  deleted : Change

unfoldable pub kind_eq : Kind → Kind → Bool
kind_eq secret secret = true
kind_eq config_map config_map = true
kind_eq _ _ = false

-- What the code uses of an object.
pub record Object : Type 0 where
  pub kind : Kind
  pub namespace : String
  pub name : String

-- An informer: what it lists and watches, and whether its handler has more functions than that for
-- an update.
pub record Informer : Type 0 where
  pub kind : Kind
  pub namespace : String
  pub all_changes : Bool

-- Whether an informer calls the event handler at a change of an object. One on the empty namespace
-- watches all of them.
unfoldable pub hears : Informer → Change → Object → Bool
unfolding kind_eq
hears i change obj =
    kind_eq i.kind obj.kind
    && (i.namespace == "" || i.namespace == obj.namespace)
    && hears_change change
  where
    hears_change : Change → Bool
    hears_change updated = true
    hears_change _ = i.all_changes

module _ {S B : Type 0} (o : Operator S B) where
  -- `o.cmapInf`
  abbrev pub cmap_inf : Informer
  cmap_inf = record { kind = config_map; namespace = o.namespace; all_changes = true }

  -- `o.informers`
  abbrev pub informers : List Informer
  informers =
      record { kind = secret; namespace = o.namespace; all_changes = true }
      ∷ record { kind = config_map; namespace = o.namespace_user_workload; all_changes = true }
      ∷ record { kind = config_map; namespace = "kube-system"; all_changes = false }
      ∷ record { kind = config_map; namespace = "openshift-config-managed"; all_changes = false }
      ∷ record { kind = config_map; namespace = "openshift-config"; all_changes = false }
      ∷ []

  -- `DeletionHandlingMetaNamespaceKeyFunc` of client-go gives the key of an object.
  module _ (meta_namespace_key : Object → Result String) where
    -- `keyFunc`: the key, if the second result is true.
    unfoldable pub key_func : Object → Option String
    key_func obj = elim (meta_namespace_key obj) [ ok k ↦ some k | err e ↦ none ]

    -- What the informers call in turn at a change of an object.
    unfoldable pub deliver_to : List Informer → Change → Object → S → S
    deliver_to [] change obj s = s
    deliver_to (i ∷ is) change obj s =
        deliver_to is change obj (if hears i change obj then handle_event o (key_func obj) s else s)

    abbrev pub deliver : Change → Object → S → S
    deliver = deliver_to (cmap_inf ∷ informers)
