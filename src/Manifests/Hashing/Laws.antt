-- ===== src/Manifests/Hashing/Laws.antt =====
-- What the objects that are named by their content hold.
use Prim.Native.String as Native
use text.Mathlib.TextLemmas.{nil-append, cons-append}
use cluster_monitoring_opera.Base.{
  wrap, message, contains, ℕ, String, ◌<>◌, true, Option, none, some, or_else, List, [], ◌∷◌,
  string_eq, ◌≡◌, refl, sym, ap, ◌∙◌, ◌⊎◌, inl, inr, All, arith, Error, Result, ok, err,
}
use cluster_monitoring_opera.Base.Dict
use cluster_monitoring_opera.Base.Dict.{Dict, NodupKeys}
use cluster_monitoring_opera.Client.{Resource, Contents}
use cluster_monitoring_opera.Manifests.Numbers.{mix_all, utf_8, write, offset_64, format_uint}
use cluster_monitoring_opera.Manifests.Reader.{value}
use cluster_monitoring_opera.Manifests.Hashing.{
  adapter_secret, write_pairs, hash_secret, add_entries, prometheus_adapter_secret, hashed_secret,
}
use cluster_monitoring_opera.Tasks.CaBundle.{hash_of}

-- The values among the arguments of `HashSecret`, as one text.
abbrev pub values_text : List String → String
values_text [] = ""
values_text (_ ∷ []) = ""
values_text (_ ∷ v ∷ rest) = v <> values_text rest

-- Keys and values as arguments.
abbrev pub arguments : Contents → List String
arguments [] = []
arguments ((k, v) ∷ m) = k ∷ v ∷ arguments m

-- Two writes are one write of both texts.
write-append : (h : ℕ) (s t : String) → write h (s <> t) ≡ write (write h s) t
unfolding write
write-append h Native.[] t = ap (write h) (nil-append t)
write-append h (Native.◌∷◌ c s) t =
    ap (write h) (cons-append c s t) ∙ write-append (mix_all h (utf_8 c)) s t

write_pairs-write :
    (args : List String) (h : ℕ) (m : Contents)
    → (write_pairs args h m).0 ≡ write h (values_text args)
unfolding write_pairs write
write_pairs-write [] h m = refl
write_pairs-write (_ ∷ []) h m = refl
write_pairs-write (k ∷ v ∷ rest) h m =
    write_pairs-write rest (write h v) (Dict.insert k v m)
    ∙ sym (write-append h v (values_text rest))

write_pairs-add_entries :
    (d : Contents) (h : ℕ) (m : Contents) → (write_pairs (arguments d) h m).1 ≡ add_entries d m
unfolding write_pairs add_entries
write_pairs-add_entries [] h m = refl
write_pairs-add_entries ((k, v) ∷ d) h m = write_pairs-add_entries d (write h v) (Dict.insert k v m)

pub lookup-add_entries :
    (j : String) (d m : Contents)
    → NodupKeys d
    → Dict.lookup j (add_entries d m) ≡ or_else (Dict.lookup j d) (Dict.lookup j m)
unfolding add_entries Dict.lookup or_else
lookup-add_entries j [] m _ = refl
lookup-add_entries j ((k, v) ∷ d) m (fresh, u) =
    ground (arith, lookup-add_entries j d (Dict.insert k v m) u, Dict.lookup-insert k j v m)

lookup-write_pairs :
    (k : String) (d : Contents) (h : ℕ)
    → NodupKeys d
    → Dict.lookup k (write_pairs (arguments d) h []).1 ≡ Dict.lookup k d
unfolding Dict.lookup or_else
lookup-write_pairs k d h u =
    let e = write_pairs-add_entries d h [] in
    ground (arith, lookup-add_entries k d [] u, ap (Dict.lookup k) e)

-- `HashSecret` at distinct keys: the secret that it returns has the value of each key, its label is
-- the hash of the values as one text, and its name ends in that hash.
pub hash_secret-reads :
    (secret : Resource Contents) (d : Contents)
    → NodupKeys d
    → (t : Resource Contents) × (hash_secret secret (arguments d) ≡ ok t)
      × ((k : String) → Dict.lookup k t.body ≡ Dict.lookup k d)
      × (hash_of t ≡ format_uint (write offset_64 (values_text (arguments d))) 32)
      × (t.meta.name ≡ secret.meta.name <> "-" <> hash_of t)
unfolding hash_secret Dict.lookup string_eq
hash_secret-reads secret d u =
    let same = write_pairs-write (arguments d) offset_64 [] in
    (
      hashed_secret secret (write_pairs (arguments d) offset_64 []),
      refl,
      λ k. lookup-write_pairs k d offset_64 u,
      ap (λ h. format_uint h 32) same,
      refl,
    )

-- The error of a read that finds nothing.
abbrev pub missing : String → Error
missing key =
    wrap (message ("key " <> key <> " is missing"))
      "value not found in extension api server authentication configmap"

-- The result by the four values that were read.
abbrev adapter_of :
    String
    → Option String
    → Option String
    → Option String
    → Option String
    → Result (Resource Contents)
adapter_of namespace none _ _ _ = err (missing "client-ca-file")
adapter_of namespace (some _) none _ _ = err (missing "requestheader-client-ca-file")
adapter_of namespace (some _) (some _) none _ = err (missing "tls.crt")
adapter_of namespace (some _) (some _) (some _) none = err (missing "tls.key")
adapter_of namespace (some w) (some x) (some y) (some z) = ok (adapter_secret namespace w x y z)

abbrev pub adapter_keys : List String
adapter_keys = "client-ca-file" ∷ "requestheader-client-ca-file" ∷ "tls.crt" ∷ "tls.key" ∷ []

-- What the two sources of the secret hold under a key: the ConfigMap goes before the TLS secret.
abbrev pub source : Resource Contents → Resource Contents → String → Option String
source tls_secret api_auth key =
    or_else (Dict.lookup key api_auth.body) (Dict.lookup key tls_secret.body)

-- The secret copies what the sources hold under a key.
abbrev pub Copies : Resource Contents → Resource Contents → Resource Contents → String → Type 0
Copies tls_secret api_auth s key =
    (v : String) × (source tls_secret api_auth key ≡ some v) × (Dict.lookup key s.body ≡ some v)

-- The two sources in one map.
abbrev sources : Resource Contents → Resource Contents → Contents
sources tls_secret api_auth = add_entries api_auth.body (add_entries tls_secret.body [])

lookup-sources :
    (tls_secret api_auth : Resource Contents) (k : String)
    → NodupKeys tls_secret.body
    → NodupKeys api_auth.body
    → Dict.lookup k (sources tls_secret api_auth) ≡ source tls_secret api_auth k
unfolding Dict.lookup or_else
lookup-sources tls_secret api_auth k u w = ground (
  arith,
  lookup-add_entries k api_auth.body (add_entries tls_secret.body []) w,
  lookup-add_entries k tls_secret.body [] u,
)

-- The four reads of `PrometheusAdapterSecret`, over any map.
prometheus_adapter_secret-cases :
    (namespace : String) (tls_secret api_auth : Resource Contents) (o₁ o₂ o₃ o₄ : Option String)
    → Dict.lookup "client-ca-file" (sources tls_secret api_auth) ≡ o₁
    → Dict.lookup "requestheader-client-ca-file" (sources tls_secret api_auth) ≡ o₂
    → Dict.lookup "tls.crt" (sources tls_secret api_auth) ≡ o₃
    → Dict.lookup "tls.key" (sources tls_secret api_auth) ≡ o₄
    → prometheus_adapter_secret namespace tls_secret api_auth ≡ adapter_of namespace o₁ o₂ o₃ o₄
unfolding prometheus_adapter_secret value
prometheus_adapter_secret-cases namespace tls_secret api_auth none o₂ o₃ o₄ a b c d = rw a refl
prometheus_adapter_secret-cases namespace tls_secret api_auth (some _) none o₃ o₄ a b c d =
    rw a (rw b refl)
prometheus_adapter_secret-cases namespace tls_secret api_auth (some _) (some _) none o₄ a b c d =
    rw a (rw b (rw c refl))
prometheus_adapter_secret-cases namespace tls_secret api_auth (some _) (some _) (some _) none a b c
      d =
    rw a (rw b (rw c (rw d refl)))
prometheus_adapter_secret-cases namespace tls_secret api_auth (some _) (some _) (some _) (some _) a
      b c d =
    rw a (rw b (rw c (rw d refl)))

-- The first key that the sources do not hold, and else the values as they hold them.
abbrev pub Outcome : String → Resource Contents → Resource Contents → Type 0
Outcome namespace tls_secret api_auth =
    ((s : Resource Contents) × (prometheus_adapter_secret namespace tls_secret api_auth ≡ ok s)
      × All (Copies tls_secret api_auth s) adapter_keys)
    ⊎ ((k : String) × (prometheus_adapter_secret namespace tls_secret api_auth ≡ err (missing k))
        × (contains adapter_keys k ≡ true)
        × (source tls_secret api_auth k ≡ none))

by_sources :
    (namespace : String) (tls_secret api_auth : Resource Contents) (o₁ o₂ o₃ o₄ : Option String)
    → prometheus_adapter_secret namespace tls_secret api_auth ≡ adapter_of namespace o₁ o₂ o₃ o₄
    → source tls_secret api_auth "client-ca-file" ≡ o₁
    → source tls_secret api_auth "requestheader-client-ca-file" ≡ o₂
    → source tls_secret api_auth "tls.crt" ≡ o₃
    → source tls_secret api_auth "tls.key" ≡ o₄
    → Outcome namespace tls_secret api_auth
unfolding string_eq Dict.lookup
by_sources namespace tls api none o₂ o₃ o₄ e a b c d = inr ("client-ca-file", e, refl, a)
by_sources namespace tls api (some _) none o₃ o₄ e a b c d =
    inr ("requestheader-client-ca-file", e, refl, b)
by_sources namespace tls api (some _) (some _) none o₄ e a b c d = inr ("tls.crt", e, refl, c)
by_sources namespace tls api (some _) (some _) (some _) none e a b c d = inr ("tls.key", e, refl, d)
by_sources namespace tls api (some w) (some x) (some y) (some z) e a b c d = inl (
  adapter_secret namespace w x y z,
  e,
  ((w, a, refl), ((x, b, refl), ((y, c, refl), ((z, d, refl), tt)))),
)

-- Where no key stands twice in either source: `PrometheusAdapterSecret` returns a secret that holds
-- the four keys with the values of the ConfigMap, or of the TLS secret where the ConfigMap has none;
-- or else its error names a key of the four that neither source has.
pub prometheus_adapter_secret-Copies :
    (namespace : String) (tls_secret api_auth : Resource Contents)
    → NodupKeys tls_secret.body
    → NodupKeys api_auth.body
    → Outcome namespace tls_secret api_auth
prometheus_adapter_secret-Copies namespace tls api u w =
    let at : (k : String) → Dict.lookup k (sources tls api) ≡ source tls api k =
      λ k. lookup-sources tls api k u w in
    by_sources namespace tls api _ _ _ _
      (prometheus_adapter_secret-cases namespace tls api _ _ _ _ (at "client-ca-file")
        (at "requestheader-client-ca-file") (at "tls.crt") (at "tls.key"))
      refl refl refl refl
