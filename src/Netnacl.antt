-- ===== src/Netnacl.antt =====
-- src/netnacl/src/netnacl.c: the context of an encrypted connection. The functions of TweetNaCl are
-- parameters. Fixed arrays are lists of bytes; a write that the source does not bound by its array
-- is checked, and ends in `overflow`. Hosts are little-endian, and builds have NDEBUG.
pub mod Laws
pub mod Send
pub mod Recv
pub mod Random
pub mod Wrap
pub mod Tests
use Prim.Native.Nat.{min}
use nacl_proxy.Base.{
  ℕ, zero, suc, ◌+◌, ◌-◌, ◌%◌, ◌^◌, ◌||◌, Option, none, some, ℤ, pos, List, [], ◌++◌, length, take,
  drop, replicate, arith,
}

abbrev pub publickey_bytes : ℕ
publickey_bytes = 32

abbrev pub secretkey_bytes : ℕ
secretkey_bytes = 32

abbrev pub beforenm_bytes : ℕ
beforenm_bytes = 32

abbrev pub nonce_bytes : ℕ
nonce_bytes = 24

abbrev pub zero_bytes : ℕ
zero_bytes = 32

abbrev pub max_message_len : ℕ
max_message_len = 4096

-- `sizeof(hdr_t)`, which is packed: a `uint16_t` length and the nonce
abbrev pub hdr_size : ℕ
hdr_size = 26

-- the size of `recv_ct` and of `recv_pt`
abbrev pub ct_size : ℕ
ct_size = 4128

-- `struct netnacl_t`; `recv_hdr` is the memory of its `hdr_t`
pub record Netnacl : Type 0 where
  pub key_bytes_sent : ℕ
  pub key_bytes_recvd : ℕ
  pub hdr_bytes_recvd : ℕ
  pub ct_bytes_recvd : ℕ
  pub pk : List ℕ
  pub sk : List ℕ
  pub peer_pk : List ℕ
  pub sym_key : List ℕ
  pub recv_ct : List ℕ
  pub recv_pt : List ℕ
  pub recv_pt_pos : ℕ
  pub recv_pt_len : ℕ
  pub send_buf_len : ℕ
  pub send_buf_pos : ℕ
  pub sock_fd : ℤ
  pub send_buf : List ℕ
  pub recv_hdr : List ℕ

-- The functions of TweetNaCl that are called: the public key of a secret key, the shared key of a
-- public and a secret key, and encryption and decryption by a nonce and a shared key.
pub record Crypto : Type 0 where
  pub public_key : List ℕ → List ℕ
  pub beforenm : List ℕ → List ℕ → List ℕ
  pub afternm : List ℕ → List ℕ → List ℕ → List ℕ
  pub open_afternm : List ℕ → List ℕ → List ℕ → Option (List ℕ)

-- `netnacl_create`: `calloc`, then the descriptor; `allocated` says whether there is memory.
pub netnacl_create : (allocated : Option (Unit {0})) → ℤ → Option Netnacl
netnacl_create none sock_fd = none
netnacl_create (some _) sock_fd = some (record {
  key_bytes_sent = 0;
  key_bytes_recvd = 0;
  hdr_bytes_recvd = 0;
  ct_bytes_recvd = 0;
  pk = replicate publickey_bytes 0;
  sk = replicate secretkey_bytes 0;
  peer_pk = replicate publickey_bytes 0;
  sym_key = replicate beforenm_bytes 0;
  recv_ct = replicate ct_size 0;
  recv_pt = replicate ct_size 0;
  recv_pt_pos = 0;
  recv_pt_len = 0;
  send_buf_len = 0;
  send_buf_pos = 0;
  sock_fd = sock_fd;
  send_buf = replicate (hdr_size + ct_size) 0;
  recv_hdr = replicate hdr_size 0;
})
