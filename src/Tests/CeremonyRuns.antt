-- ===== src/Tests/CeremonyRuns.antt =====
-- A whole signature under a key of two parties with threshold 1, each of which has the record of the key.
use tss_server.Prelude.{
  text, String, some, List, [], ◌∷◌, ok, length, Memᴰ, ◌≡◌, refl, sym, ◌∙◌, subst, arith, ◌==◌,
}
use mathlib.Core.List.Permᴰ
use tss_server.Prelude.Int.{int32, ltb_ℤ}
use tss_server.Prelude.BigInt.{set_bytes}
use tss_server.Proto.{PartyId, KeyData, KeySignRequest, KeySignPrepareMsg}
use tss_server.P2p.StreamMap.{StreamMap, store, contains}
use tss_server.Session.{convert_to_tss_party_id, find_party, event_loop}
use tss_server.KeySign.Ready
use tss_server.KeySign.Ready.{proceed, sign_party_ids, wait_for_ready}
use tss_server.KeySign.Finish.{Finished}
use tss_server.KeySign.Outcome.{response}
use tss_server.KeySign.Calls.{waited}
use tss_server.KeySign.Run.{
  Environment, pick_value, prepare_msg, key_sign, report_errors, report_streams, take_ready,
}
use tss_server.KeySign.Party.{validate, signed, handle_key_sign}
use tss_server.KeySign.{prepare_party}
use tss_server.KeySign.Player.{Player, CanSign, Signs, reports, outcomes}
use tss_server.KeySign.Together.{AreStarted, key_sign_together}
use tss_server.Tests.Storage
use tss_server.Tests.Storage.{generated, generated_key, generated-Stored}
use tss_server.Tests.TssLib.{tss_lib}
use tss_server.Tests.SigningRuns
use tss_server.Tests.KeySignRuns.{to_party}

abbrev signers_ab : List PartyId
signers_ab = SigningRuns.party "a" ∷ SigningRuns.party "b" ∷ []

-- The coordinator's record, and its two parties.
abbrev key_ab : KeyData
key_ab = record generated_key { all_party_id = signers_ab }

abbrev Seat : Type 0
Seat = Player tss_lib SigningRuns.signing Storage.store SigningRuns.name

abbrev seat_of : String → Seat
seat_of id = record {
  stream = to_party id;
  env = record SigningRuns.env { local_id = text id };
  before = generated;
  key_data = generated_key;
  save_data = text "{}";
  local_party = record { id = text id; moniker = []; key = 0 };
  signature = (4 ∷ [], 2 ∷ [], 0 ∷ []);
}

abbrev both : List Seat
both = seat_of "b" ∷ seat_of "a" ∷ []

abbrev sign_request : KeySignRequest
sign_request = record { key_id = text "k"; sign_msg = 4 ∷ []; sign_id = text "i" }

abbrev sign_prepare : KeySignPrepareMsg
sign_prepare = prepare_msg (text "u") sign_request key_ab 100

abbrev sign_call : Environment
sign_call = record {
  uuid = ok (text "u");
  reports = reports tss_lib SigningRuns.signing Storage.store SigningRuns.name sign_prepare both;
  ready_picks = pick_value ∷ pick_value ∷ [];
  outcomes = λ m.
      outcomes tss_lib SigningRuns.signing Storage.store SigningRuns.name sign_prepare
        (seat_of "a" ∷ seat_of "b" ∷ []);
  finish_picks = pick_value ∷ [];
}

abbrev map_ab : StreamMap
map_ab = (text "b", to_party "b") ∷ (text "a", to_party "a") ∷ []

abbrev Can : Seat → Type 0
Can = CanSign tss_lib SigningRuns.signing Storage.store SigningRuns.name sign_prepare

abbrev SignsHere : Seat → Type 0
SignsHere = Signs tss_lib SigningRuns.signing Storage.store SigningRuns.name sign_prepare signers_ab

a-CanSign : Can (seat_of "a")
unfolding validate prepare_msg
a-CanSign = (generated-Stored, refl, refl, refl)

b-CanSign : Can (seat_of "b")
unfolding validate prepare_msg
b-CanSign = (generated-Stored, refl, refl, refl)

a-Signs : SignsHere (seat_of "a")
unfolding event_loop convert_to_tss_party_id find_party set_bytes prepare_msg ◌==◌
a-Signs = (a-CanSign, refl, refl, refl)

b-Signs : SignsHere (seat_of "b")
unfolding event_loop convert_to_tss_party_id find_party set_bytes prepare_msg ◌==◌
b-Signs = (b-CanSign, refl, refl, refl)

-- The map that the call comes to have.
waited_map : waited sign_call key_ab ≡ proceed map_ab []
unfolding prepare_party handle_key_sign generated convert_to_tss_party_id set_bytes find_party
    event_loop prepare_msg wait_for_ready store take_ready report_errors report_streams int32 ltb_ℤ
    ◌==◌
waited_map = refl

started_ab :
    (m : StreamMap) (left : List Ready.Event)
    → waited sign_call key_ab ≡ proceed m left
    → AreStarted tss_lib SigningRuns.signing Storage.store SigningRuns.name sign_call
        (text "u")
        refl
        sign_request
        100
        key_ab
        1
        refl
        (omega arith)
        m
        (seat_of "a" ∷ seat_of "b" ∷ [])
started_ab m left h =
    let same : map_ab ≡ m = cc (sym waited_map ∙ h) in
    subst
      (λ n.
        AreStarted tss_lib SigningRuns.signing Storage.store SigningRuns.name sign_call (text "u")
          refl sign_request 100 key_ab 1 refl (omega arith) n (seat_of "a" ∷ seat_of "b" ∷ []))
      same
      (Permᴰ.swap refl refl, unfold sign_party_ids contains ◌==◌ in (a-Signs, (b-Signs, tt)), refl)

key_sign_together_example :
    (m : StreamMap) × (x : Seat) × (length m ≡ 2)
    × Memᴰ x (seat_of "a" ∷ seat_of "b" ∷ [])
    × ((key_sign sign_call (ok (some key_ab))).start
        ≡ some (record { sign_party_id = sign_party_ids signers_ab m }))
    × ((key_sign sign_call (ok (some key_ab))).answer
        ≡ Finished.signed (
            response
              (text "u")
              (signed tss_lib SigningRuns.signing Storage.store SigningRuns.name x.signature)))
unfolding ◌==◌
key_sign_together_example =
    key_sign_together tss_lib SigningRuns.signing Storage.store SigningRuns.name sign_call
      (text "u") refl sign_request 100 key_ab 1 refl (omega arith) both
      (λ m. seat_of "a" ∷ seat_of "b" ∷ []) (b-CanSign, (a-CanSign, tt)) ((refl, tt), (tt, tt))
      (omega arith) refl refl started_ab tt (omega arith) tt (omega arith)
