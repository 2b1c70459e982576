-- ===== src/Manifests/Image.antt =====
-- pkg/manifests/image.go: the name of an image, in front of its tag.
pub mod Laws
use Prim.Native.Char.{Char}
use Prim.Native.String as Native
use cluster_monitoring_opera.Base.{
  String, ◌<>◌, List, [], ◌∷◌, length, ltb, ◌==◌, string_eq, if◌then◌else◌, Error, Result, ok, err,
  message,
}
use cluster_monitoring_opera.Texts.{split, join, all_but_last, last_part}

-- `image`
pub record Image : Type 0 where
  pub repo : String
  pub tag : String

-- `InvalidImage`
abbrev pub invalid_image : Error
invalid_image = message "image string invalid"

abbrev pub colon : Char
colon = ":"

abbrev pub of_parts : List String → Result Image
of_parts parts =
    if ltb (length parts) 2
    then err invalid_image
    else ok (record { repo = join ":" (all_but_last parts); tag = last_part parts })

unfoldable pub image_from_string : String → Result Image
image_from_string s = of_parts (split colon s)

-- `String`
unfoldable pub image_string : Image → String
image_string i = i.repo <> ":" <> i.tag

unfoldable pub set_tag_if_not_empty : String → Image → Image
set_tag_if_not_empty tag i = if tag == "" then i else record i { tag = tag }
