-- ===== src/Runner/Main.antt =====
-- `main` of cmd/proxify/proxify.go, up to the wait for signals and servers: the options, the runner,
-- and its servers.
use proxify.Common.{ℕ, Option, none, some}
use proxify.Go.Outcome.{Outcome, ok, err, panic}
use proxify.Go.Strings.{Bytes}
use proxify.Go.Disk.{Disk}
use proxify.Certs.{CertLib}
use proxify.Proxy.Setup.{SetupLib}
use proxify.Proxy.Serving.{ServeLib, Running}
use proxify.Runner.Env.{RunnerLib, Ending, returned, exited, ◌>>=◌}
use proxify.Runner.Flags.{parse_options}
use proxify.Runner.Starting.{Runner, new_runner, run_runner}

-- How the program stands: it serves, or has ended with a status, or with a panic.
pub data Standing (Tunnel : Type 0) : Type 0 where
  serving : Running Tunnel → Standing Tunnel
  ended : ℕ → Standing Tunnel
  crashed : Standing Tunnel

-- An error of the runner's `Run` is fatal; without one, its servers run.
unfoldable pub standing :
    {Tunnel : Type 0} → Outcome (Unit {0}) × Option (Running Tunnel) → Standing Tunnel
standing (ok done, some running) = serving running
standing (ok done, none) = ended 0
standing (err e, running) = ended 1
standing (panic, running) = crashed

-- The end of `main`, where every error is fatal.
unfoldable pub standing_of :
    {W Dns Dialer Rotation Socks Tunnel : Type 0}
    → (Bytes → Outcome (Unit {0}))
    → ServeLib Tunnel
    → Ending (Runner W Dns Dialer Rotation Socks) × Disk
    → Standing Tunnel × Disk
standing_of compile serve (returned (ok r), d) = (standing (run_runner compile serve r), d)
standing_of compile serve (returned (err e), d) = (ended 1, d)
standing_of compile serve (returned panic, d) = (crashed, d)
standing_of compile serve (exited n, d) = (ended n, d)

-- `main`
unfoldable pub main :
    {W Dns Dialer Rotation Socks C K Tunnel : Type 0}
    → RunnerLib
    → CertLib C K
    → SetupLib W Dns Dialer Rotation Socks
    → (Bytes → Outcome (Unit {0}))
    → ServeLib Tunnel
    → Disk
    → Standing Tunnel × Disk
main lib certs setup compile serve d =
    standing_of compile serve ((parse_options lib >>= new_runner certs setup) d)
