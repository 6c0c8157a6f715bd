-- ===== src/Netnacl/Recv/Carries.antt =====
-- What a receiving context and its socket still hold: the rest of a message, and the messages whose
-- frames follow it. A message is a nonce and a text that is neither empty nor too long.
use Prim.Native.Nat.{min}
use nacl_proxy.Base.{
  ℕ, ℤ, ◌≤◌, ◌<◌, ◌≡◌, ◌∙◌, sym, ap₂, ◌⊎◌, List, [], ◌∷◌, ◌++◌, length, take, drop, take-append,
  drop-append, arith,
}
use nacl_proxy.Sys.{Env}
use nacl_proxy.Netnacl.{Netnacl, Crypto, nonce_bytes, max_message_len, hdr_size, ct_size}
use nacl_proxy.Netnacl.Laws.{CryptoLaws}
use nacl_proxy.Netnacl.Send.{padded, frame_len}
use nacl_proxy.Netnacl.Send.Frame.{frame, length-padded}
use nacl_proxy.Netnacl.Recv.{hdr_len, hdr_nonce}
use nacl_proxy.Netnacl.Recv.Open.{unread, IsOpen}

pub record Msg : Type 0 where
  pub nonce : List ℕ
  pub text : List ℕ

pub record IsMsg (m : Msg) : Type 0 where
  pub nonce_size : length m.nonce ≡ nonce_bytes
  pub some_text : 0 < length m.text
  pub fits : length m.text ≤ max_message_len

-- every message is one
unfoldable pub AreMsgs : List Msg → Type 0
AreMsgs [] = Unit
AreMsgs (m ∷ ms) = IsMsg m × AreMsgs ms

unfoldable pub texts : List Msg → List ℕ
texts [] = []
texts (m ∷ ms) = m.text ++ texts ms

-- Two lists that start with pieces of one length agree piece by piece.
pub same_pieces :
    {A : Type 0} (xs ys us vs : List A)
    → length xs ≡ length ys
    → xs ++ us ≡ ys ++ vs
    → (xs ≡ ys) × (us ≡ vs)
same_pieces xs ys us vs e h = (
  sym (take-append xs us) ∙ (ap₂ take e h ∙ take-append ys vs),
  sym (drop-append xs us) ∙ (ap₂ drop e h ∙ drop-append ys vs),
)

-- the buffers have the sizes of their arrays
pub record HasSizes (nn : Netnacl) : Type 0 where
  pub hdr : length nn.recv_hdr ≡ hdr_size
  pub ct : length nn.recv_ct ≡ ct_size
  pub pt : length nn.recv_pt ≡ ct_size

module _ {W : Type 0} (crypto : Crypto) (inbox : ℤ → W → List ℕ) where
  -- the frames of messages, one behind the other
  unfoldable pub frames : List ℕ → List Msg → List ℕ
  frames key [] = []
  frames key (m ∷ ms) = frame crypto key m.nonce m.text ++ frames key ms

  -- between two messages, or in a header
  pub record AtHdr (nn : Netnacl) (env : Env W) (ms : List Msg) : Type 0 where
    pub sizes : HasSizes nn
    pub part : nn.hdr_bytes_recvd < hdr_size
    pub no_ct : nn.ct_bytes_recvd ≡ 0
    pub no_text : nn.recv_pt_len ≡ 0
    pub no_pos : nn.recv_pt_pos ≡ 0
    pub stream :
        take nn.hdr_bytes_recvd nn.recv_hdr ++ inbox nn.sock_fd env.world ≡ frames nn.sym_key ms

  -- in the ciphertext of the message `m`
  pub record AtCt (nn : Netnacl) (env : Env W) (m : Msg) (ms : List Msg) : Type 0 where
    pub sizes : HasSizes nn
    pub message : IsMsg m
    pub whole : nn.hdr_bytes_recvd ≡ hdr_size
    pub len : hdr_len nn ≡ frame_len (length m.text)
    pub nonce : hdr_nonce nn ≡ m.nonce
    pub part : nn.ct_bytes_recvd ≤ hdr_len nn
    pub no_text : nn.recv_pt_len ≡ 0
    pub no_pos : nn.recv_pt_pos ≡ 0
    pub stream :
        take nn.ct_bytes_recvd nn.recv_ct ++ inbox nn.sock_fd env.world
        ≡ crypto.afternm (padded m.text) m.nonce nn.sym_key ++ frames nn.sym_key ms

  -- in the text of a message that has been opened
  pub record AtText (nn : Netnacl) (env : Env W) (text : List ℕ) (ms : List Msg) : Type 0 where
    pub is_open : IsOpen nn
    pub whole : nn.hdr_bytes_recvd ≡ hdr_size
    pub complete : nn.ct_bytes_recvd ≡ hdr_len nn
    pub left : unread nn ≡ text
    pub stream : inbox nn.sock_fd env.world ≡ frames nn.sym_key ms

  -- The context and the socket hold `text` and then the messages `ms`.
  abbrev pub Carries : Netnacl → Env W → List ℕ → List Msg → Type 0
  Carries nn env text ms =
      (text ≡ []) × AtHdr nn env ms
      ⊎ ((nonce : List ℕ) × AtCt nn env (record { nonce = nonce; text = text }) ms)
      ⊎ AtText nn env text ms

-- the ciphertext of a message is as long as its header says
pub length-body :
    (crypto : Crypto)
    → CryptoLaws crypto
    → (nonce text key : List ℕ) → length text ≤ max_message_len
    → length (crypto.afternm (padded text) nonce key) ≡ frame_len (length text)
unfolding padded frame_len
length-body crypto laws nonce text key fits = omega (
  arith,
  laws.length_kept (take (min (length text) max_message_len) text) nonce key,
  length-padded text,
)
