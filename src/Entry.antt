-- ===== src/Entry.antt =====
-- cmd/operator/main.go: the flag of the images, and the start and the end of the process.
pub mod Laws
mod Tests
use Prim.Native.Char.{Char}
use cluster_monitoring_opera.Base.{
  ℕ, String, ◌<>◌, Bool, true, false, ◌||◌, List, [], ◌∷◌, ◌==◌, string_eq, if◌then◌else◌, Error,
  Result, ok, err, message, M, pure, fail, attempt, ◌>>=◌, ◌>>◌,
}
use cluster_monitoring_opera.Base.Dict
use cluster_monitoring_opera.Base.Dict.{Dict}
use cluster_monitoring_opera.Manifests.Hashing.{add_entries}
use cluster_monitoring_opera.Texts.{split, join}

-- `images`
abbrev pub ImagesFlag : Type 0
ImagesFlag = Dict String String

abbrev pub comma : Char
comma = ","

abbrev pub equals : Char
equals = "="

-- `asSlice`, in the order of the entries. Go takes them in any order.
unfoldable pub as_slice : ImagesFlag → List String
as_slice [] = []
as_slice ((name, tag) ∷ i) = (name <> "=" <> tag) ∷ as_slice i

-- `String`
unfoldable pub images_string : ImagesFlag → String
unfolding as_slice
images_string i = join "," (as_slice i)

-- `asMap`, a copy.
unfoldable pub as_map : ImagesFlag → Dict String String
as_map i = add_entries i []

-- The error, for a text that `%q` only quotes.
abbrev pub malformed : String → Error
malformed value = message (
    "pair \"" <> value
    <> "\" is malformed; key-value pairs must be in the form of \"key=value\"; multiple pairs must be comma-separated")

-- A pair that was split: the entry that it sets, or the error, which names the whole value.
unfoldable pub set_pair : String → List String → M ImagesFlag (Unit {0})
set_pair value [] = fail (malformed value)
set_pair value (_ ∷ []) = fail (malformed value)
set_pair value (name ∷ tag ∷ []) = λ i. (ok tt, Dict.insert name tag i)
set_pair value (_ ∷ _ ∷ _ ∷ _) = fail (malformed value)

-- The loop over the pairs. What was set before an error stays.
unfoldable pub set_pairs : String → List String → M ImagesFlag (Unit {0})
unfolding set_pair
set_pairs value [] = pure tt
set_pairs value (pair ∷ pairs) = set_pair value (split equals pair) >> set_pairs value pairs

-- `Set`
unfoldable pub set : String → M ImagesFlag (Unit {0})
unfolding set_pairs
set value = set_pairs value (split comma value)

-- The values of the flags.
pub record Flags : Type 0 where
  pub namespace : String
  pub namespace_user_workload : String
  pub namespace_selector : String
  pub config_map_name : String
  pub kubeconfig_path : String
  pub apiserver : String
  pub release_version : String
  pub telemetry_config_file : String
  pub remote_write : Bool
  pub assets_path : String
  pub images : ImagesFlag

-- The arguments of `cmo.New` that are set here.
pub record Arguments : Type 0 where
  pub release_version : String
  pub namespace : String
  pub namespace_user_workload : String
  pub namespace_selector : String
  pub config_map_name : String
  pub user_workload_config_map_name : String
  pub remote_write : Bool
  pub images : Dict String String
  pub matches : List String
  pub assets_path : String

-- What the process calls: files, the decoder of the telemetry configuration, the configuration of the
-- client, and the operator, whose run ends with a signal or an error.
pub record Process (S C O : Type 0) : Type 0 where
  pub open_file : String → M S (Unit {0})
  pub decode_matches : M S (List String)
  pub close : M S (Unit {0})
  pub is_missing : String → S → Bool × S
  pub build_config_from_flags : String → String → M S C
  pub new : C → Arguments → M S O
  pub run : O → M S (Unit {0})

module _ {S C O : Type 0} (p : Process S C O) (flags : Flags) where
  -- An error ends the process with 1.
  abbrev pub unless_error : {A : Type 0} → Result A → (A → M S ℕ) → M S ℕ
  unless_error (err e) next = pure 1
  unless_error (ok a) next = next a

  abbrev pub arguments : List String → Arguments
  arguments matches = record {
    release_version = flags.release_version;
    namespace = flags.namespace;
    namespace_user_workload = flags.namespace_user_workload;
    namespace_selector = flags.namespace_selector;
    config_map_name = flags.config_map_name;
    user_workload_config_map_name = "user-workload-monitoring-config";
    remote_write = flags.remote_write;
    images = as_map flags.images;
    matches = matches;
    assets_path = flags.assets_path;
  }

  abbrev pub run_operator : O → M S ℕ
  run_operator o = do ran ← attempt (p.run o); unless_error ran (λ _. pure 0)

  -- From the configuration of the client on.
  unfoldable pub start_operator : List String → M S ℕ
  start_operator matches = do
    config ← attempt (p.build_config_from_flags flags.apiserver flags.kubeconfig_path)
    unless_error config
        λ config. do o ← attempt (p.new config (arguments matches)); unless_error o run_operator

  abbrev pub by_flags : List String → Bool → M S ℕ
  by_flags matches missing =
      if missing || flags.namespace == "" || flags.config_map_name == ""
      then pure 1
      else start_operator matches

  -- The tests on the assets and on the flags that are required.
  unfoldable pub check_flags : List String → M S ℕ
  unfolding start_operator
  check_flags matches s =
      let (missing, s') = p.is_missing flags.assets_path s in by_flags matches missing s'

  -- `Main`, which gives the exit code.
  unfoldable pub main : M S ℕ
  unfolding check_flags
  main = do
    opened ← attempt (p.open_file flags.telemetry_config_file)
    unless_error opened λ _. do
      decoded ← attempt p.decode_matches
      unless_error decoded
          λ matches. do closed ← attempt p.close; unless_error closed (λ _. check_flags matches)
