-- ===== src/P2p/RoundTrip.antt =====
-- What is sent is received, and what is received was framed.
use tss_server.Prelude.{
  ℕ, ◌%◌, ◌^◌, ◌≤◌, ◌<◌, Text, String, Option, none, List, [], ◌∷◌, ◌++◌, Result, ok, err, ◌>>=◌,
  >>=-eq-ok, ok_injective, length, length-append, take-append, drop-append, All, ltb, true, false,
  if◌then◌else◌, ◌≡◌, refl, sym, ap, ◌∙◌, arith,
}
use mathlib.Core.List.{append_assoc}
use tss_server.Proto.{TssP2PMsg}
use tss_server.Storage.External.{Codec}
use tss_server.P2p.Framing.{
  put_uint32, uint32, read_full, max_message_length, send_msg, recv_body, recv_length, recv_msg,
}

uint32-put_uint32 : (v : ℕ) → v < 2 ^ 32 → uint32 (put_uint32 v) ≡ v
unfolding put_uint32 uint32
uint32-put_uint32 v h = omega arith

-- A read of as many bytes as were written gives these, and leaves what comes after them.
read_full-append :
    (n : ℕ) (bs rest : Text) → length bs ≡ n → read_full n (bs ++ rest) ≡ (ok bs, rest)
unfolding read_full
read_full-append n bs rest e =
    let enough : ltb (length (bs ++ rest)) n ≡ false = ground (arith, length-append bs rest) in
    rw (enough, ← e, take-append bs rest, drop-append bs rest)

module _ (codec : Codec TssP2PMsg) where
  recv-frame :
      (n : ℕ) (stream : Text)
      → n < 2 ^ 32
      → recv_msg codec (put_uint32 n ++ stream) ≡ (
          if ltb max_message_length n
          then (err "message length is too large", stream)
          else recv_body codec (read_full n stream))
  unfolding recv_msg recv_length
  recv-frame n stream h = rw (
    read_full-append 4 (put_uint32 n) stream (unfold put_uint32 in refl),
    recv_length,
    uint32-put_uint32 n h,
  )

  send-frame :
      (refused : Text → Option String) (msg : TssP2PMsg) (frame : Text)
      → send_msg codec refused msg ≡ ok frame
      → (bytes : Text) × (codec.marshal msg ≡ ok bytes)
        × (frame ≡ put_uint32 (length bytes % 2 ^ 32) ++ bytes)
  unfolding send_msg
  send-frame refused msg frame h =
      let (bytes, hm, hf) = >>=-eq-ok (codec.marshal msg) _ h in (bytes, hm, ground arith)

  -- A message that SendMsg framed is what RecvMsg reads from the front of the stream, and what
  -- came behind it is left: if the message takes at most 20 MiB.
  pub recv_msg-send_msg :
      (refused : Text → Option String) (msg : TssP2PMsg) (bytes frame rest : Text)
      → codec.marshal msg ≡ ok bytes
      → length bytes ≤ max_message_length
      → send_msg codec refused msg ≡ ok frame
      → recv_msg codec (frame ++ rest) ≡ (ok msg, rest)
  unfolding recv_body
  recv_msg-send_msg refused msg bytes frame rest hm fits h =
      let (body, hb, hf) = send-frame refused msg frame h in
      let same : body ≡ bytes = ok_injective (sym hb ∙ hm) in
      let n = length bytes in
      let size : n % 2 ^ 32 ≡ n = omega arith in
      let shape : frame ++ rest ≡ put_uint32 n ++ (bytes ++ rest) =
        ap (λ t. t ++ rest)
          (hf
            ∙ ap (λ b. put_uint32 (length b % 2 ^ 32) ++ b) same
            ∙ ap (λ k. put_uint32 k ++ bytes) size)
        ∙ append_assoc (put_uint32 n) bytes rest in
      let small : ltb max_message_length n ≡ false = ground arith in
      rw
        (
          shape,
          recv-frame n (bytes ++ rest) (omega arith),
          small,
          read_full-append n bytes rest refl,
          recv_body,
        )
        (ap (λ r. (r, rest)) (codec.unmarshal-marshal msg bytes hm))

  -- A longer message, below 4 GiB, is sent without an error. RecvMsg refuses it and leaves its body
  -- on the stream, where the next RecvMsg takes it for a frame.
  pub recv_msg_too_large :
      (refused : Text → Option String) (msg : TssP2PMsg) (bytes rest : Text)
      → codec.marshal msg ≡ ok bytes
      → max_message_length < length bytes
      → length bytes < 2 ^ 32
      → refused (put_uint32 (length bytes) ++ bytes) ≡ none
      → (frame : Text) × (send_msg codec refused msg ≡ ok frame)
        × (recv_msg codec (frame ++ rest) ≡ (err "message length is too large", bytes ++ rest))
  unfolding send_msg
  recv_msg_too_large refused msg bytes rest hm large h accepted =
      let n = length bytes in
      let size : n % 2 ^ 32 ≡ n = omega arith in
      let big : ltb max_message_length n ≡ true = ground arith in
      (
        put_uint32 n ++ bytes,
        ground (arith, hm, size, accepted, ap (λ k. refused (put_uint32 k ++ bytes)) size),
        rw (append_assoc (put_uint32 n) bytes rest, recv-frame n (bytes ++ rest) h, big),
      )

  -- The frames of some messages, one behind the other.
  unfoldable pub send_msgs : List TssP2PMsg → Result Text
  send_msgs [] = ok []
  send_msgs (m ∷ ms) = send_msg codec (λ _. none) m >>= λ f. send_msgs ms >>= λ fs. ok (f ++ fs)

  -- RecvMsg gives the messages one after the other, and leaves `rest`.
  abbrev pub Receives : List TssP2PMsg → Text → Text → Type 0
  Receives [] stream rest = stream ≡ rest
  Receives (m ∷ ms) stream rest =
      (left : Text) × (recv_msg codec stream ≡ (ok m, left)) × Receives ms left rest

  abbrev pub FitsFrame : TssP2PMsg → Type 0
  FitsFrame m = (bytes : Text) → codec.marshal m ≡ ok bytes → length bytes ≤ max_message_length

  -- Messages of at most 20 MiB each that are sent one after the other on a stream are received as
  -- they are and in their order, and nothing behind them is read.
  pub Receives-send_msgs :
      (ms : List TssP2PMsg) (frames rest : Text)
      → All FitsFrame ms
      → send_msgs ms ≡ ok frames
      → Receives ms (frames ++ rest) rest
  unfolding send_msgs
  Receives-send_msgs [] frames rest fits h = ap (λ f. f ++ rest) (sym (ok_injective h))
  Receives-send_msgs (m ∷ ms) frames rest fits h =
      let (f, hf, h1) = >>=-eq-ok (send_msg codec (λ _. none) m) _ h in
      let (fs, hfs, h2) = >>=-eq-ok (send_msgs ms) _ h1 in
      let (bytes, hm, _) = send-frame (λ _. none) m f hf in
      (
        fs ++ rest,
        ap (λ t. recv_msg codec (t ++ rest)) (sym (ok_injective h2))
            ∙ ap (recv_msg codec) (append_assoc f fs rest)
            ∙ recv_msg-send_msg (λ _. none) m bytes f (fs ++ rest) hm (fits.0 bytes hm) hf,
        Receives-send_msgs ms fs rest fits.1 hfs,
      )
