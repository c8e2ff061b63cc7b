-- ===== src/Cli/Wait/Laws.antt =====
-- Which deployment the command line asks for (cli/cmd/wait.go and cli/cmd/deploy.go).
use text.Mathlib.TextLemmas.{append_assoc}
use nais_api.Api.{Server}
use nais_api.Api.Deployment.{World}
use nais_api.Api.Routes.{HttpCall, Printer, answered, get, handler, status_of}
use nais_api.Api.Routes.Laws.{IsSegment, Matches, handler-status}
use nais_api.Cli.Deploy.{deployed_path}
use nais_api.Cli.Wait.{WaitOptions, status_path, waited_path}
use nais_api.Kubernetes.Cluster.{Cluster}
use nais_api.Prelude.{Option, String, inl, refl, sym, ◌<>◌, ◌≡◌}
use nais_api.Prelude.Dict.{Dict}
use nais_api.Request.{Deploy}

status_path-eq : (a b : String) → status_path a b ≡ "/deploystatus/" <> a <> "/" <> b
status_path-eq a b = sym (append_assoc "/deploystatus" "/" (a <> ("/" <> b)))

-- A call of http.Get at a path of the daemon.
abbrev pub get_call : String → HttpCall
get_call path = record { method = get; path = path; body = inl ""; user = ("", "") }

module _ (match_path : String → String → Option (Dict String)) (goji : Matches match_path)
    {F N : Type 0} (c : Cluster) (server : Server c F N) (printer : Printer)
    (version revision : String) where
  status_path-asks :
      (a b : String) (w : World c server)
      → IsSegment a
      → IsSegment b
      → handler c server printer version revision match_path (get_call (status_path a b)) w
        ≡ answered (status_of c server printer version revision a b w)
  status_path-asks a b w ha hb =
      handler-status match_path goji c server printer version revision a b
        (get_call (status_path a b)) w ha hb refl (status_path-eq a b)

  -- The command that waits is answered with the status of the application in its namespace. The
  -- command that deploys is answered with that of a deployment that has the name of the namespace, in
  -- a namespace that has the name of the application.
  pub handler-waited_path :
      (o : WaitOptions) (r : Deploy) (w : World c server)
      → IsSegment o.namespace
      → IsSegment o.app
      → IsSegment r.application
      → IsSegment r.namespace
      → (handler c server printer version revision match_path (get_call (waited_path o)) w
          ≡ answered (status_of c server printer version revision o.namespace o.app w))
        × (handler c server printer version revision match_path (get_call (deployed_path r)) w
            ≡ answered (status_of c server printer version revision r.application r.namespace w))
  handler-waited_path o r w hn ha hr hs = (
    status_path-asks o.namespace o.app w hn ha,
    status_path-asks r.application r.namespace w hr hs,
  )
