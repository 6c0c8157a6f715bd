-- ===== src/Buf/Messages.antt =====
-- Messages that are put behind others, and the text of the message that a buffer yields.
use Prim.Native.Nat.{min}
use nacl_proxy.Base.{
  ℕ, ◌≡◌, refl, ℤ, List, [], ◌∷◌, ◌++◌, length, take, length-take, append_assoc, append-nil,
  take-take, arith,
}
use nacl_proxy.Netnacl.{Crypto, max_message_len}
use nacl_proxy.Netnacl.Send.{padded, frame_len}
use nacl_proxy.Netnacl.Send.Frame.{frame}
use nacl_proxy.Netnacl.Recv.Carries.{Msg, IsMsg, AreMsgs, texts, frames}

pub texts-append : (ms : List Msg) (m : Msg) → texts (ms ++ (m ∷ [])) ≡ texts ms ++ m.text
unfolding texts
texts-append [] m = append-nil m.text
texts-append (a ∷ ms) m = rw (texts-append ms m, append_assoc) refl

pub AreMsgs-append : (ms : List Msg) (m : Msg) → AreMsgs ms → IsMsg m → AreMsgs (ms ++ (m ∷ []))
unfolding AreMsgs
AreMsgs-append [] m all new = (new, tt)
AreMsgs-append (a ∷ ms) m (is, all) new = (is, AreMsgs-append ms m all new)

pub frames-append :
    {W : Type 0} (crypto : Crypto) (inbox : ℤ → W → List ℕ) (key : List ℕ) (ms : List Msg) (m : Msg)
    → frames crypto inbox key (ms ++ (m ∷ []))
      ≡ frames crypto inbox key ms ++ frame crypto key m.nonce m.text
unfolding frames
frames-append crypto inbox key [] m = append-nil (frame crypto key m.nonce m.text)
frames-append crypto inbox key (a ∷ ms) m =
    rw (frames-append crypto inbox key ms m, append_assoc) refl

-- the text of the message that a buffer yields
abbrev pub chunk : List ℕ → List ℕ
chunk buf = take (min (length buf) max_message_len) buf

-- A frame has as much of the buffer as fits.
pub frame-chunk :
    (crypto : Crypto) (key nonce buf : List ℕ)
    → frame crypto key nonce (chunk buf) ≡ frame crypto key nonce buf
unfolding frame frame_len padded
frame-chunk crypto key nonce buf =
    let len : length (chunk buf) ≡ min (length buf) max_message_len =
      omega (arith, length-take (min (length buf) max_message_len) buf) in
    let once : min (min (length buf) max_message_len) max_message_len
        ≡ min (length buf) max_message_len =
      omega arith in
    rw
      (
        len,
        once,
        take-take (min (length buf) max_message_len) (min (length buf) max_message_len) buf
            (omega arith),
      )
      refl
