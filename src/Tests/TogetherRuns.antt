-- ===== src/Tests/TogetherRuns.antt =====
-- A whole generation of a key of two parties, each on an empty storage, and one party's part of it.
use tss_server.Prelude.{text, List, [], ◌∷◌, All, ok, map, ◌≡◌, inl, inr, refl, arith, ◌==◌}
use mathlib.Core.List.Permᴰ
use tss_server.Storage.{get_key_data_by_key_id_and_key_session_id, decode}
use tss_server.P2p.StreamMap.Distinct.{map_streams}
use tss_server.Session.{convert_to_tss_party_id, event_loop}
use tss_server.KeyGen.{prepare_msg, generated, key_gen}
use tss_server.KeyGen.Player.{Player, GoesWell, Holds, readies, finishes}
use tss_server.KeyGen.Together.{key_gen_together}
use tss_server.KeyGen.Party.{convert_pub_key, validate}
use tss_server.KeyGen.Party.Success.{IsFree}
use tss_server.Tests.SortedMap.{empty, lookup}
use tss_server.Tests.Storage
use tss_server.Tests.TssLib.{tss_lib, key_lib}
use tss_server.Tests.ManagerRuns.{empty-IsSound}
use tss_server.Tests.PartyRuns
use tss_server.Tests.EveryoneRuns.{env_b}
use tss_server.Tests.KeyGenRuns

pub empty-IsFree : IsFree Storage.store empty (text "k")
unfolding get_key_data_by_key_id_and_key_session_id decode lookup
empty-IsFree d stored = cc

abbrev Seat : Type 0
Seat = Player tss_lib key_lib Storage.store PartyRuns.name

abbrev seat_a : Seat
seat_a = record {
  stream = record { id = text "x"; remote_party_id = text "a" };
  env = PartyRuns.env;
  before = empty;
  save_data = (2 ∷ 7 ∷ [], text "{}");
  json = text "{}";
  pub_key = 2 ∷ 7 ∷ [];
}

abbrev seat_b : Seat
seat_b = record seat_a {
  stream = record { id = text "y"; remote_party_id = text "b" };
  env = env_b;
}

abbrev Well : Seat → Type 0
Well = GoesWell tss_lib key_lib Storage.store PartyRuns.name PartyRuns.prepare

a-GoesWell : Well seat_a
unfolding event_loop convert_to_tss_party_id convert_pub_key validate ◌==◌
a-GoesWell =
    (empty-IsSound, empty-IsFree, refl, refl, refl, inl refl, refl, refl, refl, refl, λ t. refl)

b-GoesWell : Well seat_b
unfolding event_loop convert_to_tss_party_id convert_pub_key validate ◌==◌
b-GoesWell = (
  empty-IsSound,
  empty-IsFree,
  refl,
  refl,
  refl,
  inr (inl refl),
  refl,
  refl,
  refl,
  refl,
  λ t. refl,
)

abbrev CeremonyKey : List Seat → Type 0
CeremonyKey xs =
    ((key_gen (ok (text "s")) KeyGenRuns.request
        (readies tss_lib key_lib Storage.store PartyRuns.name PartyRuns.prepare xs)
        (finishes tss_lib key_lib Storage.store PartyRuns.name PartyRuns.prepare
          (seat_b ∷ seat_a ∷ []))).answer
      ≡ generated (record { session_id = text "s"; public_key = 2 ∷ 7 ∷ [] }))
    × (map_streams
          (key_gen (ok (text "s")) KeyGenRuns.request
            (readies tss_lib key_lib Storage.store PartyRuns.name PartyRuns.prepare xs)
            (finishes tss_lib key_lib Storage.store PartyRuns.name PartyRuns.prepare
              (seat_b ∷ seat_a ∷ []))).closed
        ≡ map (λ (x : Seat). x.stream) xs)
    × All (Holds tss_lib key_lib Storage.store PartyRuns.name PartyRuns.prepare (2 ∷ 7 ∷ [])) xs

-- "a" is ready first, and "b" is done first.
key_gen_together_example : CeremonyKey (seat_a ∷ seat_b ∷ [])
unfolding prepare_msg
key_gen_together_example =
    key_gen_together tss_lib key_lib Storage.store PartyRuns.name (text "s") KeyGenRuns.request 100
      (seat_a ∷ seat_b ∷ []) (seat_b ∷ seat_a ∷ []) (2 ∷ 7 ∷ []) (omega arith) (omega arith)
      PartyRuns.store-TakesWrites (a-GoesWell, (b-GoesWell, tt))
      ((unfold ◌==◌ in refl, tt), (tt, tt)) refl (refl, (refl, tt)) (Permᴰ.swap refl refl)
