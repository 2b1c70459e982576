-- ===== src/Manifests/Image/Laws.antt =====
-- Reading and writing the name of an image.
use Prim.Native.String as Native
use text.Mathlib.TextLemmas.{cons-append, nil-append}
use cluster_monitoring_opera.Base.{
  ltb, false, String, ◌<>◌, List, [], ◌∷◌, ◌++◌, length, ◌≡◌, refl, sym, ap, ◌∙◌, arith, ok,
}
use cluster_monitoring_opera.Texts.{split, join, all_but_last, last_part}
use cluster_monitoring_opera.Texts.Laws.{
  IsFree, split-cons, split-append, split-IsFree, join-split, join-all_but_last,
  all_but_last-append, last_part-append,
}
use cluster_monitoring_opera.Manifests.Image.{
  Image, colon, of_parts, image_from_string, image_string,
}

enough : (p q : String) (ps : List String) → ltb (length (p ∷ q ∷ ps)) 2 ≡ false
enough p q ps = ground arith

of_parts-eq-ok :
    (parts : List String) (i : Image) → of_parts parts ≡ ok i → image_string i ≡ join ":" parts
unfolding image_string all_but_last last_part
of_parts-eq-ok [] i h = cc
of_parts-eq-ok (p ∷ []) i h = cc
of_parts-eq-ok (p ∷ q ∷ ps) i h =
    let made : Image = record {
      repo = join ":" (all_but_last (p ∷ q ∷ ps));
      tag = last_part (p ∷ q ∷ ps);
    } in
    let h' : ok made ≡ ok i = rw (enough p q ps) at h in
    let same : made ≡ i = cc in ap image_string (sym same) ∙ join-all_but_last colon p q ps

of_parts-append :
    (p : String) (ps : List String) (t : String)
    → of_parts (p ∷ ps ++ (t ∷ [])) ≡ ok (record { repo = join ":" (p ∷ ps); tag = t })
unfolding all_but_last last_part
of_parts-append p [] t = refl
of_parts-append p (q ∷ qs) t =
    rw (enough p q (qs ++ (t ∷ [])))
      (rw (all_but_last-append (q ∷ qs) t) (rw (last_part-append (q ∷ qs) t) refl))

read_back : (i : Image) → IsFree colon i.tag → image_from_string (image_string i) ≡ ok i
unfolding image_from_string image_string
read_back i free =
    let (p, ps, e) = split-cons colon i.repo in
    let joined : i.repo <> ":" <> i.tag ≡ i.repo <> Native.◌∷◌ colon i.tag =
      ap (λ x. i.repo <> x)
        (cons-append colon "" i.tag ∙ ap (λ x. Native.◌∷◌ colon x) (nil-append i.tag)) in
    let parts : split colon (i.repo <> ":" <> i.tag) ≡ p ∷ ps ++ (i.tag ∷ []) =
      ap (split colon) joined
      ∙ split-append colon i.repo i.tag
      ∙ ap (λ x. split colon i.repo ++ x) (split-IsFree colon i.tag free)
      ∙ ap (λ x. x ++ (i.tag ∷ [])) e in
    ap of_parts parts
    ∙ of_parts-append p ps i.tag
    ∙ ap (λ x. ok (record { repo = x; tag = i.tag }))
        (ap (join ":") (sym e) ∙ join-split colon i.repo)

-- Writing an image that was read gives the text it was read from, and reading one that was written
-- gives the image back, where its tag has no colon; its repository can have colons, as the port of a
-- registry does.
pub image_from_string-image_string :
    (s : String) (i j : Image)
    → image_from_string s ≡ ok i
    → IsFree colon j.tag
    → (image_string i ≡ s) × (image_from_string (image_string j) ≡ ok j)
unfolding image_from_string
image_from_string-image_string s i j h free =
    (of_parts-eq-ok (split colon s) i h ∙ join-split colon s, read_back j free)
