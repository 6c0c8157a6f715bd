-- ===== src/Proxy/Accept/Failed.antt =====
-- What the listener's callback of src/proxy.c does when `accept` fails.
use nacl_proxy.Base.{ℕ, ◌≡◌, refl, arith, true, some, ℤ, pos, minus_one, is_nonneg, write_self}
use nacl_proxy.Errors.{proxy_err}
use nacl_proxy.Proxy.{Config, config_ptr, State, System, done, pollin}
use nacl_proxy.Proxy.Accept.{
  close_both, accept_code, handle_accept, keep_listening, accept_into, handle_listener,
  accept_callback,
}

-- No error number is one of two others.
pub accept_code_lem :
    {A W : Type 0} (sys : System A W) (errno : ℕ) → accept_code sys errno ≡ proxy_err
unfolding accept_code
accept_code_lem sys errno = ground arith

module _ {A W : Type 0} (sys : System A W) where
  -- If memory is there and `accept` fails, with any error number, then `accept_callback` closes
  -- descriptor 0 and returns PROXY_ERR; the event table is as it was.
  pub accept_callback-failed :
      (listen_fd : ℤ) (config : Config) (p : ℕ) (s : State A W)
      → is_nonneg listen_fd ≡ true
      → sys.calloc s.conns s.env ≡ some p
      → (sys.accept listen_fd s.env).0 ≡ minus_one
      → (s' : State A W) × (accept_callback sys listen_fd pollin (some (config_ptr config)) s
          ≡ done (proxy_err, s'))
        × (s'.env ≡ sys.close (pos 0) (sys.accept listen_fd s.env).1)
        × (s'.table ≡ s.table)
  unfolding accept_callback handle_listener accept_into handle_accept close_both keep_listening
  accept_callback-failed listen_fd config p s fine there failed =
      rw (fine, there, write_self, failed, accept_code_lem, write_self) (_, refl, refl, refl)
