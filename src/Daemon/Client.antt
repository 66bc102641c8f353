-- ===== src/Daemon/Client.antt =====
-- go/daemon/signerclient/client.go: what the daemon takes from an answer of the signer. The exchange
-- over the Unix socket is an argument, none where it fails.
use grantd.Base.{Option, none, some, leb, if◌then◌else◌}
use grantd.Signer.Lifetime.{Reply, answered, failed}

-- `do` and the test of the status behind it: the status of every error code is 400 or more.
unfoldable pub heard : {A : Type 0} → Option (Reply A) → Option A
heard none = none
heard (some (failed code)) = none
heard (some (answered status a)) = if leb 400 status then none else some a
