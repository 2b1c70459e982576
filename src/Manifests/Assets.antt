-- ===== src/Manifests/Assets.antt =====
-- pkg/manifests/assets.go: the files of the manifests, which are read once and kept. The mutex makes
-- each `GetAsset` one step.
pub mod Laws
use cluster_monitoring_opera.Base.{
  String, ◌<>◌, Option, none, some, [], string_eq, Error, Result, ok, err, wrap,
}
use cluster_monitoring_opera.Base.Dict
use cluster_monitoring_opera.Base.Dict.{Dict}

-- `Assets`, with the bytes of a file as a text.
pub record Assets : Type 0 where
  pub assets_dir : String
  pub contents : Dict String String

unfoldable pub new_assets : String → Assets
new_assets assets_dir = record { assets_dir = assets_dir; contents = [] }

-- The file system, as what a read of a path gives, and `filepath.Join` of a directory and a name.
module _ (read_file : String → Result String) (join_path : String → String → String) where
  abbrev pub by_file : String → String → Assets → Result String → Result String × Assets
  by_file name file_path a (err e) = (err (wrap e ("failed to read asset " <> name)), a)
  by_file name file_path a (ok f) =
      (ok f, record a { contents = Dict.insert file_path f a.contents })

  abbrev pub by_memory : String → String → Assets → Option String → Result String × Assets
  by_memory name file_path a (some f) = (ok f, a)
  by_memory name file_path a none = by_file name file_path a (read_file file_path)

  unfoldable pub get_asset : String → Assets → Result String × Assets
  get_asset name a =
      let file_path = join_path a.assets_dir name in
      by_memory name file_path a (Dict.lookup file_path a.contents)
