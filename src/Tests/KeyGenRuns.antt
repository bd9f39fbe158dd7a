-- ===== src/Tests/KeyGenRuns.antt =====
-- The theorems on KeyGen at requests of two parties.
use tss_server.Prelude.{text, String, true, List, [], ◌∷◌, ok, ◌≢◌, inl, inr, refl, arith, ◌==◌}
use tss_server.Prelude.Int.{pos, int32, eqb_ℤ}
use tss_server.Proto.{PartyId, KeyGenRequest, KeyGenFinishMsg}
use tss_server.P2p.{P2PStream}
use tss_server.P2p.StreamMap.{store}
use tss_server.P2p.StreamMap.Counting.{without_id}
use tss_server.KeyGen.{Event, value, proceed, wait_for_ready, wait_for_finish, after_wait, key_gen}
use tss_server.KeyGen.Unanimity.{IsUnanimous, key_gen-IsUnanimous, twice_never_proceeds}

abbrev party : String → PartyId
party id = record { id = text id; moniker = []; key = [] }

abbrev to_party : String → P2PStream
to_party id = record { id = text "x"; remote_party_id = text id }

abbrev pub request : KeyGenRequest
request = record { key_id = text "k"; threshold = pos 1; all_party_id = party "a" ∷ party "b" ∷ [] }

abbrev pub success : KeyGenFinishMsg
success = record { is_success = true; failure_reason = ""; public_key = 2 ∷ 7 ∷ [] }

abbrev pub readies : List (Event P2PStream)
readies = value (to_party "b") ∷ value (to_party "a") ∷ []

abbrev pub finishes : List (Event KeyGenFinishMsg)
finishes = value success ∷ value success ∷ []

key_gen-IsUnanimous_example :
    IsUnanimous
      (text "u")
      request
      finishes
      (key_gen (ok (text "u")) request readies finishes).closed
      (record { session_id = text "u"; public_key = 2 ∷ 7 ∷ [] })
unfolding key_gen after_wait wait_for_ready wait_for_finish store ◌==◌ int32 eqb_ℤ
key_gen-IsUnanimous_example =
    key_gen-IsUnanimous (text "u") request readies finishes
      (record { session_id = text "u"; public_key = 2 ∷ 7 ∷ [] }) (omega arith) (omega arith)
      (inr (inl refl), (inl refl, tt)) refl

-- "a" is there twice, and becomes ready twice.
twice_never_proceeds_example :
    wait_for_ready 2 (value (to_party "a") ∷ value (to_party "a") ∷ []) []
    ≢ proceed (store [] (to_party "a"))
unfolding without_id ◌==◌
twice_never_proceeds_example =
    twice_never_proceeds (party "a" ∷ party "a" ∷ [])
      (value (to_party "a") ∷ value (to_party "a") ∷ []) (store [] (to_party "a")) (text "a")
      (inl refl, inl refl) (inl refl, (inl refl, tt))
