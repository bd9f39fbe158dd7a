-- ===== src/KeyGen/Together.antt =====
-- A whole generation that goes well: the coordinator's call of KeyGen, its goroutines, and the parties'
-- calls of handleKeyGen on the other ends of their streams.
use tss_server.Prelude.{
  ◌+◌, ◌<◌, ◌^◌, Text, String, true, List, [], ◌∷◌, ◌++◌, length, length-append, map, All,
  All-Permᴰ, length-Permᴰ, ok, ◌≡◌, sym, ap, ◌∙◌, subst, arith,
}
use mathlib.Core.List.{Permᴰ, map-append, append-nil}
use tss_server.Proto.{TssP2PMsg, KeyGenFinishMsg, KeyGenRequest, Time}
use tss_server.Storage.Contract.{LocalStorage}
use tss_server.P2p.StreamMap.Distinct.{HasDistinctRemotes, map_streams}
use tss_server.Session.{TssLib}
use tss_server.KeyGen.Player.{
  Player, key_of, GoesWell, Holds, readies, finishes, readies-streams, finishes-told, told_success,
  length-told, length-streams, last_told, hold,
}
use tss_server.KeyGen
use tss_server.KeyGen.{
  Report, failed, ready, prepare_party, prepare_reply, Outcome, finished, start_party, start_reply,
  prepare_msg, generated, key_gen,
}
use tss_server.KeyGen.Success.{key_gen-generated}
use tss_server.KeyGen.Party.{KeyLib}
use tss_server.KeyGen.Party.Settled.{TakesWrites}

module _ (lib : TssLib) (keys : KeyLib) (st : LocalStorage)
    (invalid_msg_type : TssP2PMsg → String) where
  open st use {State, IsSound}

  abbrev Seat : Type 0
  Seat = Player lib keys st invalid_msg_type

  -- A generation that goes well with all its parties ends well: KeyGen answers with the key, it
  -- has closed its stream to each party, and the storage of each party has the READY record of
  -- the session, with the key. It goes well with a party when, as GoesWell says, its storage is
  -- sound, no record that the key id selects is live, its validator takes the request, the
  -- request names it, it is told to start, its tss-lib ends with save data that can be marshalled
  -- and whose public key can be converted, and nobody else touches the record of the session.
  -- There are n parties, 0 < n < 2^31, no two streams are to one party, the tss-libs make one
  -- public key, every write is taken, and the parties become ready, and come to an end, in any
  -- order.
  pub key_gen_together :
      (session_id : Text) (request : KeyGenRequest) (deadline : Time) (xs finishers : List Seat)
      (key : Text)
      → 0 < length request.all_party_id
      → length request.all_party_id < 2 ^ 31
      → TakesWrites st
      → All (GoesWell lib keys st invalid_msg_type (prepare_msg session_id request deadline)) xs
      → HasDistinctRemotes (map (λ (x : Seat). x.stream) xs)
      → length xs ≡ length request.all_party_id
      → All (λ (x : Seat). key_of lib keys st invalid_msg_type x ≡ key) xs
      → Permᴰ xs finishers
      → let m = prepare_msg session_id request deadline in
        let run =
          key_gen
            (ok session_id)
            request
            (readies lib keys st invalid_msg_type m xs)
            (finishes lib keys st invalid_msg_type m finishers) in
        (run.answer ≡ generated (record { session_id = session_id; public_key = key }))
        × (map_streams run.closed ≡ map (λ (x : Seat). x.stream) xs)
        × All (Holds lib keys st invalid_msg_type m key) xs
  key_gen_together session_id request deadline xs [] key some_party few takes well apart full same
        order =
      absurd (let none_finish = length-Permᴰ order in omega arith)
  key_gen_together session_id request deadline xs (y ∷ finishers) key some_party few takes well
        apart full same order =
      let m = prepare_msg session_id request deadline in
      let (ms, last, parts, is_key) =
        last_told lib keys st invalid_msg_type key y finishers
          (All-Permᴰ (λ (x : Seat). key_of lib keys st invalid_msg_type x ≡ key) order same) in
      let size : length ms + 1 ≡ length request.all_party_id =
        sym (length-append ms (last ∷ []))
        ∙ ap length (sym parts)
        ∙ length-told lib keys st invalid_msg_type (y ∷ finishers)
        ∙ sym (length-Permᴰ order)
        ∙ full in
      let success =
        subst (All (λ (f : KeyGenFinishMsg). f.is_success ≡ true)) parts
          (told_success lib keys st invalid_msg_type (y ∷ finishers)) in
      let taken : finishes lib keys st invalid_msg_type m (y ∷ finishers)
          ≡ map KeyGen.Event.value ms ++ KeyGen.Event.value last ∷ [] =
        finishes-told lib keys st invalid_msg_type m (y ∷ finishers) takes
          (All-Permᴰ (GoesWell lib keys st invalid_msg_type m) order well)
        ∙ ap (map KeyGen.Event.value) parts
        ∙ map-append KeyGen.Event.value ms (last ∷ []) in
      let (answer, closed) =
        key_gen-generated session_id request (map (λ (x : Seat). x.stream) xs) [] ms last [] few
          apart (length-streams lib keys st invalid_msg_type xs ∙ full) success size in
      let came : readies lib keys st invalid_msg_type m xs
          ≡ map KeyGen.Event.value (map (λ (x : Seat). x.stream) xs) ++ [] =
        readies-streams lib keys st invalid_msg_type m xs takes well ∙ sym (append-nil _) in
      rw (came, taken)
        (
          answer ∙ ap (λ k. generated (record { session_id = session_id; public_key = k })) is_key,
          closed,
          hold lib keys st invalid_msg_type m key xs takes well same,
        )
