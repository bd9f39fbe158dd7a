-- ===== src/P2p/Framing.antt =====
-- SendMsg and RecvMsg of libP2PStream: a message's bytes behind their length, four bytes in little
-- endian order. A stream that is read is the list of the bytes that are still to come.
use tss_server.Prelude.{
  ℕ, ◌+◌, ◌*◌, ◌/◌, ◌%◌, ◌^◌, Text, String, Option, none, some, [], ◌∷◌, ◌++◌, Result, ok, err,
  ◌>>=◌, length, take, drop, ltb, if◌then◌else◌,
}
use tss_server.Proto.{TssP2PMsg}
use tss_server.Storage.External.{Codec}

-- binary.LittleEndian.PutUint32
unfoldable pub put_uint32 : ℕ → Text
put_uint32 v = v % 256 ∷ v / 2 ^ 8 % 256 ∷ v / 2 ^ 16 % 256 ∷ v / 2 ^ 24 % 256 ∷ []

-- binary.LittleEndian.Uint32
unfoldable pub uint32 : Text → ℕ
uint32 (a ∷ b ∷ c ∷ d ∷ rest) = a + b * 2 ^ 8 + c * 2 ^ 16 + d * 2 ^ 24
uint32 _ = 0

abbrev pub max_message_length : ℕ
max_message_length = 20 * 1024 * 1024

-- io.ReadFull into a buffer of n bytes: the bytes, and what the stream has left.
unfoldable pub read_full : ℕ → Text → Result Text × Text
read_full n stream =
    if ltb (length stream) n
    then (err (elim stream [ [] ↦ "EOF" | b ∷ bs ↦ "unexpected EOF" ]), [])
    else (ok (take n stream), drop n stream)

module _ (codec : Codec TssP2PMsg) where
  -- The bytes that SendMsg hands to the stream; `refused` is the error of the stream's writer on
  -- them, if it has one.
  unfoldable pub send_msg : (refused : Text → Option String) → TssP2PMsg → Result Text
  unfolding put_uint32
  send_msg refused msg = do
    bytes ← codec.marshal msg
    let frame = put_uint32 (length bytes % 2 ^ 32) ++ bytes
    elim (refused frame) [ none ↦ ok frame | some e ↦ err e ]

  -- RecvMsg behind the read of the body.
  unfoldable pub recv_body : Result Text × Text → Result TssP2PMsg × Text
  recv_body (err e, stream) = (err e, stream)
  recv_body (ok bytes, stream) = (codec.unmarshal bytes, stream)

  -- RecvMsg behind the read of the length.
  unfoldable pub recv_length : Result Text × Text → Result TssP2PMsg × Text
  unfolding recv_body uint32 read_full
  recv_length (err e, stream) = (err e, stream)
  recv_length (ok length_bytes, stream) =
      let n = uint32 length_bytes in
      if ltb max_message_length n
      then (err "message length is too large", stream)
      else recv_body (read_full n stream)

  unfoldable pub recv_msg : Text → Result TssP2PMsg × Text
  unfolding recv_length
  recv_msg stream = recv_length (read_full 4 stream)
