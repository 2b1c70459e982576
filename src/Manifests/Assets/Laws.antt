-- ===== src/Manifests/Assets/Laws.antt =====
-- The assets in memory are those of the files.
use cluster_monitoring_opera.Base.{
  map, String, ◌<>◌, Option, none, some, List, [], ◌∷◌, string_eq, ◌==◌, if◌then◌else◌, ◌≡◌, refl,
  sym, ap, ◌∙◌, arith, Result, ok, err, or_wrap,
}
use cluster_monitoring_opera.Base.Dict
use cluster_monitoring_opera.Manifests.Assets.{Assets, new_assets, get_asset, by_memory}

cons_eq : {A : Type 0} {x y : A} {xs ys : List A} → x ≡ y → xs ≡ ys → x ∷ xs ≡ y ∷ ys
cons_eq p q = cc

module _ (read_file : String → Result String) (join_path : String → String → String) where
  -- What is kept under a path is what the file holds.
  abbrev pub IsCopy : Assets → Type 0
  IsCopy a = (path f : String) → Dict.lookup path a.contents ≡ some f → read_file path ≡ ok f

  -- A sequence of reads, with the results.
  unfoldable pub get_assets : List String → Assets → List (Result String) × Assets
  get_assets [] a = ([], a)
  get_assets (name ∷ names) a =
      let (r, a') = get_asset read_file join_path name a in
      let (rs, a'') = get_assets names a' in (r ∷ rs, a'')

  -- What a read gives without the memory.
  abbrev pub direct : String → String → Result String
  direct dir name = or_wrap ("failed to read asset " <> name) (read_file (join_path dir name))

  after_insert :
      (file_path path f g : String) (old : Option String)
      → read_file file_path ≡ ok f
      → (old ≡ some g → read_file path ≡ ok g)
      → (if file_path == path then some f else old) ≡ some g
      → read_file path ≡ ok g
  after_insert file_path path f g old q copy h = ground arith

  get_asset-IsCopy :
      (name : String) (a : Assets)
      → IsCopy a
      → ((get_asset read_file join_path name a).0 ≡ direct a.assets_dir name)
        × IsCopy (get_asset read_file join_path name a).1
        × ((get_asset read_file join_path name a).1.assets_dir ≡ a.assets_dir)
  unfolding get_asset
  get_asset-IsCopy name a copy =
      by_lookup (Dict.lookup file_path a.contents) refl (read_file file_path) refl
    where
      file_path : String
      file_path = join_path a.assets_dir name

      by_lookup :
          (o : Option String)
          → Dict.lookup file_path a.contents ≡ o
          → (r : Result String) → read_file file_path ≡ r
          → let out = by_memory read_file join_path name file_path a o in
            (out.0 ≡ direct a.assets_dir name) × IsCopy out.1 × (out.1.assets_dir ≡ a.assets_dir)
      by_lookup (some f) e r q =
          (ap (or_wrap ("failed to read asset " <> name)) (sym (copy file_path f e)), copy, refl)
      by_lookup none e (err x) q = rw q (refl, copy, refl)
      by_lookup none e (ok f) q = rw q (
        refl,
        λ path g h.
            after_insert file_path path f g (Dict.lookup path a.contents) q (copy path g)
              (sym (Dict.lookup-insert file_path path f a.contents) ∙ h),
        refl,
      )

  -- Any sequence of reads of new assets gives what reads of the files give, whatever is in memory
  -- by then.
  pub get_assets-direct :
      (dir : String) (names : List String)
      → (get_assets names (new_assets dir)).0 ≡ map (direct dir) names
  unfolding new_assets Dict.lookup get_assets
  get_assets-direct dir names = from names (new_assets dir) refl (λ path f h. cc)
    where
      from :
          (names : List String) (a : Assets)
          → a.assets_dir ≡ dir
          → IsCopy a
          → (get_assets names a).0 ≡ map (direct dir) names
      from [] a e copy = refl
      from (name ∷ names) a e copy =
          let (first, copy', e') = get_asset-IsCopy name a copy in
          let rest = from names (get_asset read_file join_path name a).1 (e' ∙ e) copy' in
          cons_eq (first ∙ ap (λ d. direct d name) e) rest
