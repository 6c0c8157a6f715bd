-- ===== src/Network/Tests.antt =====
-- src/network.c on a system that counts, in which the first of two addresses refuses.
use nacl_proxy.Base.{
  ℕ, ◌+◌, ◌-◌, refl, Bool, true, false, ℤ, negsuc, write, write_self, ltb, ◌&&◌, none, some, pos,
  [], ◌∷◌, ◌==◌, if◌then◌else◌,
}
use nacl_proxy.Network.{Host, resolved, Cache, network_connect_to_server, network_get_listen_socket}
use nacl_proxy.Network.Attempts.{Connects, network_connect_to_server-Connects}
use nacl_proxy.Network.Balance.{
  Counts, Opens, Balanced, held, network_connect_to_server-Balanced,
  network_get_listen_socket-Opens,
}

record Counters : Type 0 where
  fds : ℕ
  lists : ℕ
  fresh : ℕ
  opened : ℕ → Bool

abbrev open_in : (ℕ → Bool) → ℤ → Bool
open_in opened (pos n) = opened n
open_in opened (negsuc n) = false

abbrev closing : ℤ → (ℕ → Bool) → ℕ → Bool
closing (pos n) opened = write opened n false
closing (negsuc n) opened = opened

abbrev counting : Host ℕ Counters
counting = record {
  now = λ w. 1000;
  getaddrinfo = λ w. (resolved (0 ∷ 1 ∷ []), record w { lists = w.lists + 1 });
  freeaddrinfo = λ l w. record w { lists = w.lists - held l };
  socket = λ a w. (
    pos w.fresh,
    record w { fds = w.fds + 1; fresh = w.fresh + 1; opened = write w.opened w.fresh true },
  );
  connect = λ fd a w. (if a == 0 then some 111 else none, w);
  close = λ fd w. record w {
    fds = w.fds - (if open_in w.opened fd then 1 else 0);
    opened = closing fd w.opened;
  };
  setsockopt = λ fd w. (true, w);
  bind = λ fd a w. (true, w);
  listen = λ fd w. (true, w);
  get_flags = λ fd w. (pos 2, w);
  set_flags = λ fd flags w. (true, w);
}

counting_lem : Counts counting (λ w. w.fds) (λ w. w.lists)
counting_lem = record {
  is_open = λ fd w. open_in w.opened fd;
  minus_one_shut = λ w. refl;
  socket_open = λ a w made. write_self w.opened w.fresh true;
  connect_open = λ fd g a w. refl;
  setsockopt_open = λ fd g w. refl;
  bind_open = λ fd g a w. refl;
  listen_open = λ fd g w. refl;
  socket_fds = λ a w. refl;
  socket_lists = λ a w. refl;
  connect_fds = λ fd a w. refl;
  connect_lists = λ fd a w. refl;
  setsockopt_fds = λ fd w. refl;
  setsockopt_lists = λ fd w. refl;
  bind_fds = λ fd a w. refl;
  bind_lists = λ fd a w. refl;
  listen_fds = λ fd w. refl;
  listen_lists = λ fd w. refl;
  close_fds = λ fd w. refl;
  close_lists = λ fd w. refl;
  free_fds = λ l w. refl;
  free_lists = λ l w. refl;
  resolve_fds = λ w. refl;
  resolve_lists = λ w. refl;
}

-- a cached address that has expired
abbrev old : Cache ℕ
old = record { address = 0 ∷ []; last_resolution = 5 }

abbrev before : Counters
before = record { fds = 4; lists = 1; fresh = 7; opened = λ n. ltb 2 n && ltb n 7 }

network_connect_to_server-Balanced_example :
    Balanced counting
      (λ w. w.fds)
      (λ w. w.lists)
      counting_lem
      0
      before
      (network_connect_to_server counting old before)
network_connect_to_server-Balanced_example =
    network_connect_to_server-Balanced counting (λ w. w.fds) (λ w. w.lists) counting_lem 0 old
      before refl

network_get_listen_socket-Opens_example :
    Opens counting
      (λ w. w.fds)
      (λ w. w.lists)
      counting_lem
      before
      (network_get_listen_socket counting before)
network_get_listen_socket-Opens_example =
    network_get_listen_socket-Opens counting (λ w. w.fds) (λ w. w.lists) counting_lem before

network_connect_to_server-Connects_example :
    Connects counting old before (network_connect_to_server counting old before)
network_connect_to_server-Connects_example = network_connect_to_server-Connects counting old before
