-- ===== src/Tests/EveryoneRuns.antt =====
-- KeyGen and handleKeyGen together: a key of two parties.
use tss_server.Prelude.{text, true, List, [], ◌∷◌, Memᴰ, All, ok, ◌≡◌, inl, inr, refl, arith, ◌==◌}
use tss_server.Prelude.Int.{int32, eqb_ℤ}
use tss_server.Proto.{PartyId, process_update}
use tss_server.Manager.{
  check_and_set_key_gen_storage, check_no_live, compare_and_set_key_status_storage,
}
use tss_server.P2p.StreamMap.{store}
use tss_server.Session.{Action, convert_to_tss_party_id, end, process}
use tss_server.KeyGen.{prepare_msg, wait_for_ready, wait_for_finish, after_wait, key_gen}
use tss_server.KeyGen.Everyone.{Call, run_call, IsCallOf, key_gen-HoldsKey}
use tss_server.KeyGen.Party.Settled.{IsReady}
use tss_server.KeyGen.Party.{Environment, handle_key_gen, convert_pub_key}
use tss_server.Tests.SortedMap.{empty}
use tss_server.Tests.Storage
use tss_server.Tests.Storage.{run_storage}
use tss_server.Tests.TssLib.{all_but_last, tss_lib, key_lib}
use tss_server.Tests.ManagerRuns.{empty-IsSound}
use tss_server.Tests.PartyRuns
use tss_server.Tests.KeyGenRuns

-- Each party's call on an empty storage.
abbrev pub env_b : Environment tss_lib key_lib Storage.store PartyRuns.name
env_b = record PartyRuns.env {
  local_id = text "b";
  events =
      process (
        process_update
          (record { from_party_id = text "a"; msg_wire_bytes = 1 ∷ []; is_broadcast = true }))
      ∷ end (2 ∷ 7 ∷ [], text "{}")
      ∷ [];
}

abbrev PartyCall : Type 0
PartyCall = Call tss_lib key_lib Storage.store PartyRuns.name

abbrev call_of : Environment tss_lib key_lib Storage.store PartyRuns.name → PartyCall
call_of e = record {
  env = e;
  before = empty;
  answer = ok KeyGenRuns.success;
  replied = KeyGenRuns.success;
}

abbrev calls : List PartyCall
calls = call_of PartyRuns.env ∷ call_of env_b ∷ []

abbrev before_reply : PartyCall → List (Action tss_lib)
before_reply c =
    all_but_last (run_call tss_lib key_lib Storage.store PartyRuns.name PartyRuns.prepare c).actions

call_of_a :
    IsCallOf tss_lib key_lib Storage.store PartyRuns.name PartyRuns.prepare (call_of PartyRuns.env)
unfolding handle_key_gen run_storage check_and_set_key_gen_storage check_no_live
    convert_to_tss_party_id convert_pub_key compare_and_set_key_status_storage
call_of_a = (
  empty-IsSound,
  (λ s sound. sound),
  (λ s sound. sound),
  refl,
  before_reply (call_of PartyRuns.env),
  refl,
)

call_of_b : IsCallOf tss_lib key_lib Storage.store PartyRuns.name PartyRuns.prepare (call_of env_b)
unfolding handle_key_gen run_storage check_and_set_key_gen_storage check_no_live
    convert_to_tss_party_id convert_pub_key compare_and_set_key_status_storage
call_of_b = (
  empty-IsSound,
  (λ s sound. sound),
  (λ s sound. sound),
  refl,
  before_reply (call_of env_b),
  refl,
)

key_gen-HoldsKey_example :
    All
      (λ (p : PartyId).
        (c : PartyCall) × Memᴰ c calls
        × (c.env.local_id ≡ p.id)
        × IsReady Storage.store
            (run_call tss_lib key_lib Storage.store PartyRuns.name PartyRuns.prepare c).storage
            (text "k")
            (text "s")
            c.replied.public_key)
      KeyGenRuns.request.all_party_id
    × (c : PartyCall) × Memᴰ c calls
    × IsReady Storage.store
        (run_call tss_lib key_lib Storage.store PartyRuns.name PartyRuns.prepare c).storage
        (text "k")
        (text "s")
        (2 ∷ 7 ∷ [])
unfolding key_gen after_wait wait_for_ready wait_for_finish store ◌==◌ int32 eqb_ℤ prepare_msg
key_gen-HoldsKey_example =
    key_gen-HoldsKey tss_lib key_lib Storage.store PartyRuns.name (text "s") KeyGenRuns.request 100
      KeyGenRuns.readies KeyGenRuns.finishes calls
      (record { session_id = text "s"; public_key = 2 ∷ 7 ∷ [] }) (omega arith) (omega arith)
      PartyRuns.store-TakesWrites (inr (inl refl), (inl refl, tt)) (call_of_a, (call_of_b, tt))
      (inl refl, (inr (inl refl), tt)) ((refl, tt), (tt, tt)) (refl, (refl, tt)) refl
