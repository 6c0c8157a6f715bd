-- ===== src/Proxy/Process/Tests.antt =====
-- `proxy_run` on the system of Proxy/Tests, until a poll has failed.
use nacl_proxy.Base.{ℕ, ◌+◌, refl, pos, ltb, ◌==◌, if◌then◌else◌}
use nacl_proxy.Proxy.{System}
use nacl_proxy.Proxy.Process.{proxy_run}
use nacl_proxy.Proxy.Process.Safe.{SystemLaws}
use nacl_proxy.Proxy.Process.Ends.{Ends, proxy_run-Ends}
use nacl_proxy.Proxy.Tests.{small, small-laws, settings, start}
use nacl_proxy.Tests.Sockets.{World}

-- The listener is 3 and the servers are 4; the run ends in the second poll, with the connection of the
-- first one in the event table.
abbrev brief : System ℕ World
brief = record small {
  net = λ addr port. record (small.net addr port) {
    socket = λ a env. ((if env.errno == 0 then pos 3 else pos 4), env);
  };
  poll = λ m env. ((small.poll m env).0, record env { errno = env.errno + 1 });
  run_flag = λ env. if ltb env.errno 2 then pos 1 else pos 0;
}

brief-laws : SystemLaws brief
brief-laws = record { calloc_free = small-laws.calloc_free; poll_quiet = small-laws.poll_quiet }

proxy_run-Ends_example : Ends (proxy_run brief 5 settings start)
proxy_run-Ends_example = proxy_run-Ends brief brief-laws 5 settings start refl
