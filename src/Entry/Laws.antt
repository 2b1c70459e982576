-- ===== src/Entry/Laws.antt =====
-- The flag of the images written and read, and when the process ends without an error.
use Prim.Native.Char.{Char}
use Prim.Native.String as Native
use text.Mathlib.TextLemmas.{nil-append, cons-append}
use cluster_monitoring_opera.Base.{
  ℕ, String, ◌<>◌, Bool, true, false, ◌||◌, List, [], ◌∷◌, ◌++◌, ◌==◌, string_eq, if◌then◌else◌,
  ◌≡◌, ◌≢◌, refl, sym, ap, ◌∙◌, subst, All, arith, or_else, Result, ok, err, M, pure, attempt,
  ◌>>=◌,
}
use cluster_monitoring_opera.Base.Dict
use cluster_monitoring_opera.Base.Dict.{NodupKeys}
use cluster_monitoring_opera.Manifests.Hashing.{add_entries}
use cluster_monitoring_opera.Manifests.Hashing.Laws.{lookup-add_entries}
use cluster_monitoring_opera.Texts.{char_eq, split, join}
use cluster_monitoring_opera.Texts.Laws.{IsFree, split-append, split-IsFree, split-join}
use cluster_monitoring_opera.Entry.{
  ImagesFlag, comma, equals, as_slice, images_string, Flags, Process, unless_error, arguments,
  run_operator, start_operator, by_flags, check_flags, main, set_pair, set_pairs, set,
}

-- A name or a tag without the separators.
abbrev pub IsPlain : String → Type 0
IsPlain s = IsFree comma s × IsFree equals s

abbrev pub IsPlainEntry : String × String → Type 0
IsPlainEntry (name, tag) = IsPlain name × IsPlain tag

IsFree-append : (c : Char) (s t : String) → IsFree c s → IsFree c t → IsFree c (s <> t)
IsFree-append c Native.[] t h k = subst (IsFree c) (sym (nil-append t)) k
IsFree-append c (Native.◌∷◌ d s) t (other, h) k =
    subst (IsFree c) (sym (cons-append d s t)) (other, IsFree-append c s t h k)

equals-IsFree : IsFree comma "="
unfolding char_eq
equals-IsFree = (refl, tt)

pair-IsFree : (name tag : String) → IsPlain name → IsPlain tag → IsFree comma (name <> "=" <> tag)
pair-IsFree name tag n t =
    IsFree-append comma name ("=" <> tag) n.0 (IsFree-append comma "=" tag equals-IsFree t.0)

slice-IsFree : (i : ImagesFlag) → All IsPlainEntry i → All (IsFree comma) (as_slice i)
unfolding as_slice
slice-IsFree [] h = tt
slice-IsFree ((name, tag) ∷ i) ((n, t), h) = (pair-IsFree name tag n t, slice-IsFree i h)

split_pair :
    (name tag : String)
    → IsPlain name
    → IsPlain tag
    → split equals (name <> "=" <> tag) ≡ name ∷ tag ∷ []
split_pair name tag n t =
    ap (λ x. split equals (name <> x))
      (cons-append equals "" tag ∙ ap (λ x. Native.◌∷◌ equals x) (nil-append tag))
    ∙ split-append equals name tag
    ∙ ap (λ x. x ++ split equals tag) (split-IsFree equals name n.1)
    ∙ ap (λ x. name ∷ x) (split-IsFree equals tag t.1)

set_pairs-as_slice :
    (value : String) (i m : ImagesFlag)
    → All IsPlainEntry i
    → set_pairs value (as_slice i) m ≡ (ok tt, add_entries i m)
unfolding set_pairs set_pair as_slice add_entries
set_pairs-as_slice value [] m h = refl
set_pairs-as_slice value ((name, tag) ∷ i) m ((n, t), h) =
    rw (split_pair name tag n t) (set_pairs-as_slice value i (Dict.insert name tag m) h)

copied :
    (name : String) (i : ImagesFlag)
    → NodupKeys i
    → Dict.lookup name (add_entries i []) ≡ Dict.lookup name i
unfolding Dict.lookup or_else
copied name i u = ground (arith, lookup-add_entries name i [] u)

-- A flag that holds some images, without separators in a name or a tag and with no name twice: what
-- `String` writes of it, `Set` reads back, from no images, without an error, and with the same tag for
-- every name.
pub set-images_string :
    (entry : String × String) (rest : ImagesFlag)
    → All IsPlainEntry (entry ∷ rest)
    → NodupKeys (entry ∷ rest)
    → (m : ImagesFlag) × (set (images_string (entry ∷ rest)) [] ≡ (ok tt, m))
      × ((name : String) → Dict.lookup name m ≡ Dict.lookup name (entry ∷ rest))
unfolding set images_string as_slice
set-images_string entry rest h u =
    let i : ImagesFlag = entry ∷ rest in
    let value = join "," (as_slice i) in
    (
      add_entries i [],
      ap (λ parts. set_pairs value parts []) (split-join comma _ (as_slice rest) (slice-IsFree i h))
          ∙ set_pairs-as_slice value i [] h,
      λ name. copied name i u,
    )

unlike : (s : String) → (s == "") ≡ false → s ≢ ""
unlike s q = ground arith

module _ {S C O : Type 0} (p : Process S C O) (flags : Flags) where
  -- What a call from one state leads to, where it returns.
  abbrev LeadsTo : {A : Type 0} → S → M S A → (A → S → Type 0) → Type 0
  LeadsTo {A} s m Q = (a : A) (t : S) → m s ≡ (ok a, t) → Q a t

  unless_error-LeadsTo :
      {A : Type 0} (m : M S A) (next : A → M S ℕ) (Q : ℕ → S → Type 0) (s : S)
      → ((t : S) → Q 1 t)
      → ((a : A) (t : S) → m s ≡ (ok a, t) → LeadsTo t (next a) Q)
      → LeadsTo s (attempt m >>= λ r. unless_error p flags r next) Q
  unless_error-LeadsTo {A} m next Q s one go c t h = by_result (m s).0 (m s).1 refl h
    where
      by_result :
          (r : Result A) (u : S) → m s ≡ (r, u) → unless_error p flags r next u ≡ (ok c, t) → Q c t
      by_result (ok a) u e k = go a u e c t k
      by_result (err e) u q k = let same : 1 ≡ c = cc in subst (λ x. Q x t) same (one t)

  -- The operator was made of the flags, and its run has ended without an error.
  abbrev pub RanToEnd : S → Type 0
  RanToEnd t =
      (flags.namespace ≢ "")
      × (flags.config_map_name ≢ "")
      × (matches : List String) × (config : C) × (o : O) × (u v : S) × (p.new config
            (arguments p flags matches) u
          ≡ (ok o, v))
      × (p.run o v ≡ (ok tt, t))

  abbrev Exit : ℕ → S → Type 0
  Exit code t = code ≡ 0 → RanToEnd t

  one : (t : S) → Exit 1 t
  one t h = cc

  start_operator-Exit :
      (matches : List String)
      → flags.namespace ≢ ""
      → flags.config_map_name ≢ ""
      → (s : S) → LeadsTo s (start_operator p flags matches) Exit
  unfolding start_operator
  start_operator-Exit matches ns cm s =
      unless_error-LeadsTo (p.build_config_from_flags flags.apiserver flags.kubeconfig_path) _ Exit
        s one
        λ config u _.
          unless_error-LeadsTo (p.new config (arguments p flags matches)) (run_operator p flags)
            Exit u one
            λ o v made.
              unless_error-LeadsTo (p.run o) (λ _. pure 0) Exit v one
                λ _ w ran code t h none_failed.
                  (ns, cm, matches, config, o, u, v, made, ran ∙ ap (λ x. (ok tt, x.1)) h)

  by_flags-Exit :
      (matches : List String) (missing : Bool) (s : S)
      → LeadsTo s (by_flags p flags matches missing) Exit
  by_flags-Exit matches true s code t h e = cc
  by_flags-Exit matches false s code t h e =
      by_tests (flags.namespace == "") (flags.config_map_name == "") refl refl h
    where
      by_tests :
          (a b : Bool)
          → (flags.namespace == "") ≡ a
          → (flags.config_map_name == "") ≡ b
          → (if a || b then pure 1 else start_operator p flags matches) s ≡ (ok code, t)
          → RanToEnd t
      by_tests true b q r k = cc
      by_tests false true q r k = cc
      by_tests false false q r k =
          start_operator-Exit matches (unlike flags.namespace q) (unlike flags.config_map_name r) s
            code t k e

  -- The process exits with 0 only if the namespace and the name of the ConfigMap are set, and an
  -- operator that was made of the flags has run to its end without an error.
  pub main-RanToEnd : (s t : S) → main p flags s ≡ (ok 0, t) → RanToEnd t
  unfolding main check_flags
  main-RanToEnd s t h =
      (unless_error-LeadsTo (p.open_file flags.telemetry_config_file) _ Exit s one λ _ u _.
          unless_error-LeadsTo p.decode_matches _ Exit u one λ matches v _.
            unless_error-LeadsTo p.close (λ _. check_flags p flags matches) Exit v one
              λ _ w _.
                by_flags-Exit matches (p.is_missing flags.assets_path w).0
                  (p.is_missing flags.assets_path w).1)
        0 t h refl
