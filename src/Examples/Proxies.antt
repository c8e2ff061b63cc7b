-- ===== src/Examples/Proxies.antt =====
-- The options of a proxy at work.
use nais_api.Prelude.{String, refl, ◌++◌, ◌<>◌, ◌≡◌}
use nais_api.Prelude.Outcome.{Outcome, ok}
use nais_api.Prelude.Text.{contains_char, split}
use nais_api.Proxy.{Address, java_proxy_options}
use nais_api.Proxy.Laws.{AreForJava, host_entries, java_proxy_options-read, proxy_entries}
use nais_api.Proxy.Line.{read_line}

abbrev proxy_address : Address
proxy_address = record { hostname = "webproxy"; port = "8088" }

abbrev one_address : String → Outcome Address
one_address url = ok proxy_address

abbrev local_hosts : String
local_hosts = "localhost,.local"

java_proxy_options-read_example :
    (line hosts : String) × (java_proxy_options one_address "http://webproxy:8088" local_hosts
      ≡ ok line)
    × (read_line line ≡ proxy_entries proxy_address ++ host_entries local_hosts hosts)
    × AreForJava (split "," local_hosts) (split "|" hosts)
unfolding contains_char
java_proxy_options-read_example =
    java_proxy_options-read one_address "http://webproxy:8088" local_hosts proxy_address (λ e. cc)
      refl ((λ e. cc), refl) ((λ e. cc), refl) (refl, refl)

line_made :
    java_proxy_options one_address "http://webproxy:8088" local_hosts
    ≡ ok (
        "-Dhttp.proxyHost=webproxy -Dhttps.proxyHost=webproxy -Dhttp.proxyPort=8088 "
        <> "-Dhttps.proxyPort=8088 -Dhttp.nonProxyHosts=localhost|*.local")
unfolding java_proxy_options
line_made = refl
