-- ===== src/Proxy/Laws.antt =====
-- The Java virtual machine reads the settings of the proxy back from its line of options
-- (proxyopts/proxyopts.go).
use Prim.Native.Char.{Char, code}
use nais_api.Prelude.{
  All, Bool-cases, List, Option, String, [], ap, arith, if◌then◌else◌, inl, inr, map, refl, some,
  subst, sym, ◌++◌, ◌<>◌, ◌==◌, ◌∙◌, ◌∷◌, ◌≡◌, ◌≢◌, ◌⊎◌,
}
use nais_api.Prelude.Outcome.{Outcome, ok}
use nais_api.Prelude.Splits.{
  Lacks, Lacks-append, Lacks-join, ne-eq_false, split-Lacks, split-join, split-ne-nil,
}
use nais_api.Prelude.Text.{contains_char, is_char, join, split}
use nais_api.Proxy.{
  Address, JavaOption, format_options, formatted, http_opts, java_proxy_options, mangle_host,
  mangle_wildcard, no_proxy_opts,
}
use nais_api.Proxy.Line.{IsPlain, entry, read_line, read_line-format_options}

-- What is read of a proxy, and of the hosts that are reached without it.
abbrev pub proxy_entries : Address → List (Option (String × String))
proxy_entries u =
    some ("http.proxyHost", u.hostname)
    ∷ some ("https.proxyHost", u.hostname)
    ∷ some ("http.proxyPort", u.port)
    ∷ some ("https.proxyPort", u.port)
    ∷ []

abbrev pub host_entries : String → String → List (Option (String × String))
host_entries no_proxy hosts = if no_proxy == "" then [] else some ("http.nonProxyHosts", hosts) ∷ []

-- A host, with `*` before it if it starts with a dot, lacks what the host lacks, but for `*`.
mangle_wildcard-Lacks :
    (c : Char) (hosts : List String)
    → Lacks c "*"
    → All (Lacks c) hosts
    → All (Lacks c) (mangle_wildcard hosts)
unfolding mangle_wildcard mangle_host
mangle_wildcard-Lacks c [] k h = tt
mangle_wildcard-Lacks c (host ∷ hosts) k (h, hs) =
    (mangle_host-Lacks host h, mangle_wildcard-Lacks c hosts k hs)
  where
    mangle_host-Lacks : (host : String) → Lacks c host → Lacks c (mangle_host host)
    mangle_host-Lacks String.[] h = h
    mangle_host-Lacks (String.◌∷◌ d host) h = elim (Bool-cases (is_char "." d)) [
      | inl e ↦ rw e (Lacks-append c "*" (String.◌∷◌ d host) k h)
      | inr e ↦ rw e h
    ]

-- A host as Java wants it: with `*` before it if its first character is a dot, and as it is if not.
abbrev pub IsForJava : String → String → Type 0
IsForJava String.[] out = out ≡ ""
IsForJava (String.◌∷◌ c rest) out =
    ((code c ≡ 46) × (out ≡ "*" <> String.◌∷◌ c rest)) ⊎ ((code c ≢ 46) × (out ≡ String.◌∷◌ c rest))

-- Each host of the first list is given to Java by the second, in order.
abbrev pub AreForJava : List String → List String → Type 0
AreForJava [] [] = Unit
AreForJava [] (out ∷ outs) = ⊥
AreForJava (host ∷ hosts) [] = ⊥
AreForJava (host ∷ hosts) (out ∷ outs) = IsForJava host out × AreForJava hosts outs

mangle_host-IsForJava : (host : String) → IsForJava host (mangle_host host)
unfolding mangle_host
mangle_host-IsForJava String.[] = refl
mangle_host-IsForJava (String.◌∷◌ c rest) = elim (Bool-cases (is_char "." c)) [
  | inl e ↦ rw e (inl (ground (arith, e), refl))
  | inr e ↦ rw e (inr (ground (arith, e), refl))
]

mangle_wildcard-AreForJava : (hosts : List String) → AreForJava hosts (mangle_wildcard hosts)
unfolding mangle_wildcard
mangle_wildcard-AreForJava [] = tt
mangle_wildcard-AreForJava (host ∷ hosts) =
    (mangle_host-IsForJava host, mangle_wildcard-AreForJava hosts)

-- The options of a proxy.
abbrev proxies : Address → List JavaOption
proxies u =
    record { key = "http.proxyHost"; value = u.hostname }
    ∷ record { key = "https.proxyHost"; value = u.hostname }
    ∷ record { key = "http.proxyPort"; value = u.port }
    ∷ record { key = "https.proxyPort"; value = u.port }
    ∷ []

hosts_of : String → String
hosts_of no_proxy = join "|" (mangle_wildcard (split "," no_proxy))

no_proxy_opts-read :
    (u : Address) (no_proxy : String)
    → map entry (no_proxy_opts (proxies u) no_proxy)
      ≡ proxy_entries u ++ host_entries no_proxy (hosts_of no_proxy)
unfolding no_proxy_opts hosts_of
no_proxy_opts-read u no_proxy = elim (Bool-cases (no_proxy == "")) [
  | inl e ↦ rw e refl
  | inr e ↦ rw e refl
]

no_proxy_opts-ne-nil : (u : Address) (no_proxy : String) → no_proxy_opts (proxies u) no_proxy ≢ []
unfolding no_proxy_opts
no_proxy_opts-ne-nil u no_proxy = elim (Bool-cases (no_proxy == "")) [
  | inl e ↦ rw e (λ h. cc)
  | inr e ↦ rw e (λ h. cc)
]

map-ne-nil : (hosts : List String) → hosts ≢ [] → map mangle_host hosts ≢ []
map-ne-nil [] h = λ e. h refl
map-ne-nil (host ∷ hosts) h = λ e. cc

no_proxy_opts-IsPlain :
    (u : Address) (no_proxy : String)
    → Lacks " " u.hostname
    → Lacks " " u.port
    → Lacks " " no_proxy
    → All IsPlain (no_proxy_opts (proxies u) no_proxy)
unfolding no_proxy_opts contains_char
no_proxy_opts-IsPlain u no_proxy h p n = elim (Bool-cases (no_proxy == "")) [
  | inl e ↦ rw e ((refl, refl, h), ((refl, refl, h), ((refl, refl, p), ((refl, refl, p), tt))))
  | inr e ↦ rw e (
    (refl, refl, h),
    ((refl, refl, h), ((refl, refl, p), ((refl, refl, p), ((refl, refl, hosts), tt)))),
  )
]
  where
    hosts : Lacks " " (join "|" (mangle_wildcard (split "," no_proxy)))
    hosts =
        Lacks-join " " "|" (mangle_wildcard (split "," no_proxy)) refl
          (mangle_wildcard-Lacks " " (split "," no_proxy) refl (split-Lacks " " "," no_proxy n))

module _ (parse_url : String → Outcome Address) where
  http_opts-eq_ok :
      (proxy_url : String) (u : Address)
      → proxy_url ≢ ""
      → parse_url proxy_url ≡ ok u
      → u.hostname ≢ ""
      → u.port ≢ ""
      → http_opts parse_url [] proxy_url ≡ ok (proxies u)
  unfolding http_opts
  http_opts-eq_ok proxy_url u given parsed h p =
      rw (ne-eq_false given, parsed, ne-eq_false h, ne-eq_false p) refl

  -- For the address of a proxy, with a host and a port, the line of options is made, and its words, as
  -- Java reads them, are the host and the port, each for http and https, and the hosts that are
  -- reached without the proxy, if there are any: these, parted at "|", are those of NO_PROXY, parted
  -- at ",", each with "*" before it if it starts with a dot. No text holds a space, and no host "|".
  pub java_proxy_options-read :
      (proxy_url no_proxy : String) (u : Address)
      → proxy_url ≢ ""
      → parse_url proxy_url ≡ ok u
      → (u.hostname ≢ "") × Lacks " " u.hostname
      → (u.port ≢ "") × Lacks " " u.port
      → Lacks " " no_proxy × Lacks "|" no_proxy
      → (line hosts : String) × (java_proxy_options parse_url proxy_url no_proxy ≡ ok line)
        × (read_line line ≡ proxy_entries u ++ host_entries no_proxy hosts)
        × AreForJava (split "," no_proxy) (split "|" hosts)
  unfolding java_proxy_options hosts_of mangle_wildcard contains_char
  java_proxy_options-read proxy_url no_proxy u given parsed (hg, h) (pg, p) (n, m) = (
    format_options (no_proxy_opts (proxies u) no_proxy),
    hosts_of no_proxy,
    ap (formatted parse_url no_proxy) (http_opts-eq_ok proxy_url u given parsed hg pg),
    read_line-format_options (no_proxy_opts (proxies u) no_proxy) (no_proxy_opts-ne-nil u no_proxy)
          (no_proxy_opts-IsPlain u no_proxy h p n)
        ∙ no_proxy_opts-read u no_proxy,
    subst (AreForJava (split "," no_proxy))
        (sym (
          split-join "|" refl (mangle_wildcard (split "," no_proxy))
            (map-ne-nil (split "," no_proxy) (split-ne-nil "," no_proxy))
            (mangle_wildcard-Lacks "|" (split "," no_proxy) refl (split-Lacks "|" "," no_proxy m))))
        (mangle_wildcard-AreForJava (split "," no_proxy)),
  )
