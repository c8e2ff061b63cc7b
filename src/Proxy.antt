-- ===== src/Proxy.antt =====
-- proxyopts/proxyopts.go: proxy settings as options of the Java virtual machine.
pub mod Line
pub mod Laws
use nais_api.Prelude.{List, String, [], if◌then◌else◌, map, ◌++◌, ◌<>◌, ◌==◌, ◌||◌, ◌∷◌}
use nais_api.Prelude.Outcome.{Outcome, and_then, err, errorf, ok, panic}
use nais_api.Prelude.Text.{is_char, join, split}

pub record JavaOption : Type 0 where
  pub key : String
  pub value : String

unfoldable pub format_option : JavaOption → String
format_option o = "-D" <> o.key <> "=" <> o.value

unfoldable pub format_options : List JavaOption → String
unfolding format_option join
format_options options = join " " (map format_option options)

-- What `url.Parse` gives of a proxy's address: `Hostname()` and `Port()`.
pub record Address : Type 0 where
  pub hostname : String
  pub port : String

-- `parse_url` is url.Parse of net/url.
module _ (parse_url : String → Outcome Address) where
  abbrev pub proxy_options : List JavaOption → Address → Outcome (List JavaOption)
  proxy_options flags u =
      if u.hostname == "" || u.port == ""
      then err (errorf "if specifying a proxy URL, both hostname and port is required")
      else ok (
          flags
          ++ record { key = "http.proxyHost"; value = u.hostname }
            ∷ record { key = "https.proxyHost"; value = u.hostname }
            ∷ record { key = "http.proxyPort"; value = u.port }
            ∷ record { key = "https.proxyPort"; value = u.port }
            ∷ [])

  unfoldable pub http_opts : List JavaOption → String → Outcome (List JavaOption)
  http_opts flags proxy_url =
      if proxy_url == "" then ok flags else and_then (parse_url proxy_url) (proxy_options flags)

-- host[0] == '.'
unfoldable pub mangle_host : String → String
mangle_host String.[] = ""
mangle_host (String.◌∷◌ c host) =
    if is_char "." c then "*" <> String.◌∷◌ c host else String.◌∷◌ c host

unfoldable pub mangle_wildcard : List String → List String
unfolding mangle_host
mangle_wildcard hosts = map mangle_host hosts

unfoldable pub no_proxy_opts : List JavaOption → String → List JavaOption
unfolding mangle_wildcard split join
no_proxy_opts flags no_proxy =
    if no_proxy == ""
    then flags
    else flags
      ++ record {
        key = "http.nonProxyHosts";
        value = join "|" (mangle_wildcard (split "," no_proxy));
      }
        ∷ []

module _ (parse_url : String → Outcome Address) where
  abbrev pub formatted : String → Outcome (List JavaOption) → Outcome String
  formatted no_proxy (ok flags) = ok (format_options (no_proxy_opts flags no_proxy))
  formatted no_proxy (err e) = err (errorf ("error in parsing proxy URL: " <> e.text))
  formatted no_proxy panic = panic

  unfoldable pub java_proxy_options : String → String → Outcome String
  unfolding http_opts no_proxy_opts format_options
  java_proxy_options proxy_url no_proxy = formatted no_proxy (http_opts parse_url [] proxy_url)
