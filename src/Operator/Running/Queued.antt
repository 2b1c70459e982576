-- ===== src/Operator/Running/Queued.antt =====
-- What `Run` puts into the queue while the worker is busy.
use cluster_monitoring_opera.Base.{
  ℕ, zero, suc, ◌+◌, String, Bool, true, false, Option, none, List, [], ◌∷◌, Result, ok, ◌≡◌, refl,
  ◌∙◌, ap, arith,
}
use cluster_monitoring_opera.Client.{Resource, Contents}
use cluster_monitoring_opera.Operator.{Operator}
use cluster_monitoring_opera.Operator.Events.{cmo_config_map, enqueue}
use cluster_monitoring_opera.Operator.Events.Laws.{add_times}
use cluster_monitoring_opera.Operator.Watches.{Object, cmap_inf, informers}
use cluster_monitoring_opera.Operator.Watches.Laws.{deliveries, deliver_to-add_times}
use cluster_monitoring_opera.Operator.Running.{
  Signal, stop, tick, change, item, Runtime, enqueue_unless, enqueue_if_missing, run_loop,
}

-- Whether the worker takes an item before the stop.
unfoldable pub has_item : List Signal → Bool
has_item [] = false
has_item (stop ∷ signals) = false
has_item (item ∷ signals) = true
has_item (_ ∷ signals) = has_item signals

module _ {S B : Type 0} (o : Operator S B) where
  add_times-add : (a b : ℕ) (s : S) → add_times o b (add_times o a s) ≡ add_times o (a + b) s
  unfolding add_times
  add_times-add zero b s = let e : b ≡ 0 + b = omega arith in ap (λ n. add_times o n s) e
  add_times-add (suc a) b s =
      add_times-add a b (enqueue o (cmo_config_map o) s)
      ∙ (let e : suc (a + b) ≡ suc a + b = omega arith in ap (λ n. add_times o n s) e)

  module _ (r : Runtime S) (meta_namespace_key : Object → Result String) where
    -- One addition for each tick, and one for each informer at which a change triggers an update.
    unfoldable pub additions : List Signal → ℕ
    additions [] = 0
    additions (stop ∷ signals) = 0
    additions (tick ∷ signals) = 1 + additions signals
    additions (change c obj ∷ signals) =
        deliveries o meta_namespace_key (cmap_inf o ∷ informers o) c obj + additions signals
    additions (item ∷ signals) = additions signals

    -- While the store of the informer has no ConfigMap of the operator, which a lookup does not change,
    -- and until the worker takes an item, the loop of `Run` and the events put the operator's key into
    -- the queue once at each tick and once at each informer where a change triggers an update, and do
    -- nothing else.
    pub run_loop-add_times :
        ((s : S) → o.config_map_by_key (cmo_config_map o) s ≡ (ok none, s))
        → (signals : List Signal) (working : Bool) (s : S) → has_item signals ≡ false
        → (run_loop o r meta_namespace_key signals working s).1 ≡ add_times o (additions signals) s
    unfolding run_loop has_item additions add_times enqueue_if_missing
    run_loop-add_times missing [] working s h = refl
    run_loop-add_times missing (stop ∷ signals) working s h = refl
    run_loop-add_times missing (tick ∷ signals) working s h =
        run_loop-add_times missing signals working _ h
        ∙ (ap (add_times o (additions signals)) (
              ap
                (λ (x : Result (Option (Resource Contents)) × S).
                  enqueue_unless o r meta_namespace_key x.0 x.1)
                (missing s))
            ∙ add_times-add 1 (additions signals) s)
    run_loop-add_times missing (change c obj ∷ signals) working s h =
        run_loop-add_times missing signals working _ h
        ∙ (ap (add_times o (additions signals))
              (deliver_to-add_times o meta_namespace_key (cmap_inf o ∷ informers o) c obj s)
            ∙ add_times-add _ (additions signals) s)
    run_loop-add_times missing (item ∷ signals) working s h = cc
