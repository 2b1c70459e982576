-- ===== src/Manifests/Reader.antt =====
-- pkg/manifests/errmapreader.go: `errMapReader`, which reads a map and keeps the first error.
use cluster_monitoring_opera.Base.{
  String, ◌<>◌, Option, none, some, List, [], string_eq, ◌==◌, if◌then◌else◌, Error, Result,
  message,
}
use cluster_monitoring_opera.Base.Dict
use cluster_monitoring_opera.Base.Dict.{Dict}

-- `errMapReader`
pub record Reader : Type 0 where
  pub src : Dict String String
  pub err : Option Error

-- `newErrMapReader`
abbrev pub new_reader : Dict String String → Reader
new_reader src = record { src = src; err = none }

abbrev pub with_error : Error → Reader → Reader
with_error e r = record r { err = some e }

abbrev pub found_or_missing : String → Reader → Option String → String × Reader
found_or_missing key r none = ("", with_error (message ("key " <> key <> " is missing")) r)
found_or_missing key r (some result) = (result, r)

unfoldable pub value : String → Reader → String × Reader
value key r = elim r.err [
  | some _ ↦ ("", r)
  | none ↦ found_or_missing key r (Dict.lookup key r.src)
]

abbrev pub decoded : Reader → Result (List String) → List String × Reader
decoded r (Result.ok items) = (items, r)
decoded r (Result.err e) = ([], with_error e r)

abbrev pub slice_of : (String → Result (List String)) → String → Reader → List String × Reader
slice_of unmarshal v r = elim r.err [
  | some _ ↦ ([], r)
  | none ↦ if v == "" then ([], r) else decoded r (unmarshal v)
]

-- With the JSON decoder for lists of texts.
unfoldable pub slice : (String → Result (List String)) → String → Reader → List String × Reader
unfolding value
slice unmarshal key r = elim r.err [
  | some _ ↦ ([], r)
  | none ↦ let (v, r') = value key r in slice_of unmarshal v r'
]
