-- ===== src/Controller/Dns/Serve.antt =====
-- controller/src/dns/mod.rs: the DNS server's start, which ends with an error. `udp` and `tcp` are how
-- binding the two ports ends, `done` how the server does.
use spawner.Prelude.Result.{Result, ok, err}
use spawner.Prelude.Text.{Text, codes, context}

abbrev served : Result Text Unit → Result Text Unit → Result Text Unit → Text
served (err e) tcp done = e
served (ok u) (err e) done = e
served (ok u) (ok v) (err e) = e
served (ok u) (ok v) (ok w) = codes "DNS server terminated unexpectedly."

unfoldable pub serve_dns : Result Text Unit → Result Text Unit → Result Text Unit → Text
serve_dns udp tcp done =
    served (context (codes "Binding UDP port for DNS server.") udp)
      (context (codes "Binding TCP port for DNS server.") tcp)
      (context (codes "Internal DNS error.") done)
