-- ===== src/Netnacl/Recv/Open.antt =====
-- Opening a frame that has arrived, and handing out its plaintext.
use Prim.Native.Nat.{min}
use nacl_proxy.Base.{
  ℕ, ◌+◌, ◌-◌, ◌%◌, ◌^◌, ◌≤◌, ◌<◌, ◌≡◌, ◌∙◌, refl, sym, ap, ◌⊎◌, inl, inr, true, pos, List, ◌++◌,
  length, take, drop, replicate, length-take, length-drop, take-append, take_all, drop-take,
  take-take, drop-drop, leb, ◌==◌, Bool-cases, arith,
}
use nacl_proxy.Errors.{nn_success}
use nacl_proxy.Sys.{splice, load16, store16, swap16}
use nacl_proxy.Sys.Laws.{length-splice}
use nacl_proxy.Netnacl.{Netnacl, Crypto, zero_bytes, max_message_len, hdr_size, ct_size}
use nacl_proxy.Netnacl.Laws.{CryptoLaws}
use nacl_proxy.Netnacl.Send.{padded, frame_len}
use nacl_proxy.Netnacl.Recv.{
  hdr_len, hdr_nonce, swap_len, opened, open_reply, decrypt_ciphertext, reset,
  copy_plaintext_to_buffer,
}

-- `take` of a write at the front of a buffer is what was written.
front_splice : (buf bytes : List ℕ) (n : ℕ) → n ≡ length bytes → take n (splice buf 0 bytes) ≡ bytes
unfolding splice
front_splice buf bytes n e = rw e (take-append bytes _)

-- The header of a frame, once its length is in host order.
module _ (nonce : List ℕ) (len : ℕ) (small : len < 2 ^ 16) where
  abbrev pub wire_hdr : List ℕ
  wire_hdr = store16 (swap16 len) ++ nonce

  pub hdr_len-swap : (nn : Netnacl) → nn.recv_hdr ≡ wire_hdr → hdr_len (swap_len nn) ≡ len
  unfolding swap_len load16 store16 splice swap16
  hdr_len-swap nn e = rw e (omega arith)

  pub hdr_nonce-swap : (nn : Netnacl) → nn.recv_hdr ≡ wire_hdr → hdr_nonce (swap_len nn) ≡ nonce
  unfolding swap_len store16 splice
  hdr_nonce-swap nn e = rw e

pub length-swap :
    (nn : Netnacl) → length nn.recv_hdr ≡ hdr_size → length (swap_len nn).recv_hdr ≡ hdr_size
unfolding swap_len store16
length-swap nn e =
    length-splice nn.recv_hdr 0 (store16 (swap16 (load16 nn.recv_hdr))) (omega arith) ∙ e

-- The bytes of plaintext that are still to be handed out.
abbrev pub unread : Netnacl → List ℕ
unread nn = take (nn.recv_pt_len - nn.recv_pt_pos) (drop nn.recv_pt_pos nn.recv_pt)

-- A message has been opened and is not yet read to its end.
pub record IsOpen (nn : Netnacl) : Type 0 where
  pub started : nn.recv_pt_pos < nn.recv_pt_len
  pub fits : nn.recv_pt_len ≤ max_message_len
  pub size : length nn.recv_pt ≡ ct_size

-- The padding in front of a message that has been written to a buffer is skipped.
drop_padding :
    (buf pt : List ℕ)
    → take (length pt) (drop zero_bytes (splice buf 0 (replicate zero_bytes 0 ++ pt))) ≡ pt
unfolding splice
drop_padding buf pt = take-append pt _

padded_eq : (pt : List ℕ) → length pt ≤ max_message_len → padded pt ≡ replicate zero_bytes 0 ++ pt
unfolding padded
padded_eq pt fits = ap (λ b. replicate zero_bytes 0 ++ b) (take_all _ pt (omega arith))

-- A state whose frame of `pt` has been opened.
pub opened-unread :
    (pt : List ℕ) (nn : Netnacl)
    → length pt ≤ max_message_len
    → 0 < length pt
    → hdr_len nn ≡ frame_len (length pt)
    → nn.recv_pt_pos ≡ 0
    → length nn.recv_pt ≡ ct_size
    → (unread (opened (padded pt) nn) ≡ pt) × IsOpen (opened (padded pt) nn)
unfolding opened frame_len
opened-unread pt nn fits more hl start size =
    let pt_len : (hdr_len nn + (2 ^ 16 - zero_bytes)) % 2 ^ 16 ≡ length pt = omega (arith, hl) in
    let long : 0 + length (replicate zero_bytes 0 ++ pt) ≤ length nn.recv_pt =
      omega (arith, size) in
    rw (padded_eq pt fits, pt_len, start, drop_padding nn.recv_pt pt)
      (
        front_splice (splice nn.recv_pt 0 (replicate zero_bytes 0 ++ pt)) pt (length pt - 0)
            (omega arith),
        record {
          started = more;
          fits = fits;
          size =
              length-splice (splice nn.recv_pt 0 (replicate zero_bytes 0 ++ pt)) 0 pt (
                omega (arith, size, length-splice nn.recv_pt 0 (replicate zero_bytes 0 ++ pt) long))
              ∙ (length-splice nn.recv_pt 0 (replicate zero_bytes 0 ++ pt) long ∙ size);
        },
      )

-- A complete frame of `pt` is opened.
pub decrypt-opens :
    (crypto : Crypto)
    → CryptoLaws crypto
    → (nonce pt : List ℕ) (nn : Netnacl) → hdr_nonce nn ≡ nonce
    → take (hdr_len nn) nn.recv_ct ≡ crypto.afternm (padded pt) nonce nn.sym_key
    → decrypt_ciphertext crypto nn ≡ (nn_success, opened (padded pt) nn)
unfolding decrypt_ciphertext open_reply padded
decrypt-opens crypto laws nonce pt nn hn ct =
    rw (ct, hn, laws.opens (take (min (length pt) max_message_len) pt) nonce nn.sym_key)

pub length-unread :
    (nn : Netnacl) → IsOpen nn → length (unread nn) ≡ nn.recv_pt_len - nn.recv_pt_pos
length-unread nn o = omega (
  arith,
  o.started,
  o.fits,
  o.size,
  length-take (nn.recv_pt_len - nn.recv_pt_pos) (drop nn.recv_pt_pos nn.recv_pt),
  length-drop nn.recv_pt_pos nn.recv_pt,
)

-- what is unread once `r` bytes more have been handed out
later :
    (nn : Netnacl) (r : ℕ)
    → take (nn.recv_pt_len - (nn.recv_pt_pos + r)) (drop (nn.recv_pt_pos + r) nn.recv_pt)
      ≡ drop r (unread nn)
later nn r =
    let e : nn.recv_pt_len - (nn.recv_pt_pos + r) ≡ nn.recv_pt_len - nn.recv_pt_pos - r =
      omega arith in
    rw (e, ← drop-drop)
      (sym (drop-take r (nn.recv_pt_len - nn.recv_pt_pos) (drop nn.recv_pt_pos nn.recv_pt)))

-- `copy_plaintext_to_buffer` hands out as much as is there and fits, from the front.
pub copy-hands_out :
    (len : ℕ) (nn : Netnacl)
    → IsOpen nn
    → let n = min (length (unread nn)) len in
      let (ret, bytes, nn') = copy_plaintext_to_buffer len nn in
      (ret ≡ pos n)
      × (bytes ≡ take n (unread nn))
      × (((p : ℕ) × (nn' ≡ record nn { recv_pt_pos = p })
            × IsOpen (record nn { recv_pt_pos = p })
            × (unread (record nn { recv_pt_pos = p }) ≡ drop n (unread nn)))
          ⊎ (n ≡ length (unread nn)) × (nn' ≡ reset nn))
unfolding copy_plaintext_to_buffer
copy-hands_out len nn o =
    let r : ℕ = min (nn.recv_pt_len - nn.recv_pt_pos) len in
    let all : length (unread nn) ≡ nn.recv_pt_len - nn.recv_pt_pos = length-unread nn o in
    let small : leb nn.recv_pt_len max_message_len ≡ true = ground (arith, o.fits) in
    let left : (2 ^ 64 + nn.recv_pt_len - nn.recv_pt_pos) % 2 ^ 64
        ≡ nn.recv_pt_len - nn.recv_pt_pos =
      omega (arith, o.fits, o.started) in
    let wrap : (nn.recv_pt_pos + r) % 2 ^ 16 ≡ nn.recv_pt_pos + r =
      omega (arith, o.fits, o.started) in
    let within : leb (nn.recv_pt_pos + r) nn.recv_pt_len ≡ true = ground (arith, o.started) in
    let front : take r (drop nn.recv_pt_pos nn.recv_pt) ≡ take r (unread nn) = sym (
      take-take r (nn.recv_pt_len - nn.recv_pt_pos) (drop nn.recv_pt_pos nn.recv_pt)
        (omega arith)) in
    elim (Bool-cases (nn.recv_pt_pos + r == nn.recv_pt_len)) [
      | inl last ↦
          rw (all, small, left, wrap, within, last)
            (refl, front, inr (ground (arith, o.started), refl))
      | inr more ↦
          rw (all, small, left, wrap, within, more)
            (
              refl,
              front,
              inl (
                nn.recv_pt_pos + r,
                refl,
                record { started = ground (arith, o.started); fits = o.fits; size = o.size },
                later nn r,
              ),
            )
    ]
