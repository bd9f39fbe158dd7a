-- ===== src/Manager/Rpc.antt =====
-- The RPCs of tss/tss_manager.go that look up keys and verify signatures, and the manager's start and
-- stop. `errorf` is fmt.Sprintf of a format with no arguments, as status.Errorf applies it to the
-- text of an error.
use tss_server.Prelude.{
  ℕ, Text, text, String, Bool, Option, none, some, [], ◌∷◌, Result, ok, err, ◌≡◌, ◌⊎◌, inl, inr, ap,
  ◌∙◌,
}
use tss_server.Prelude.BigInt.{set_bytes}
use tss_server.Proto.{KeyData, GetKeyResponse, PartyId, ready}
use tss_server.Storage.Contract.{LocalStorage}
use tss_server.P2p.Channel.{Effect}
use tss_server.P2p.Node.{Network, LibP2PManager}
use tss_server.P2p.Node.Handlers.{set, remove, register_all}
use tss_server.Manager.{get_latest_ready_key_data_by_key_id_from_storage}
use tss_server.Manager.Keys.{IsLatestUnder, get_latest_ready_lem}

pub data Code : Type 0 where
  not_found internal : Code

-- The response of an RPC, or a status error.
pub data Reply (A : Type 0) : Type 0 where
  response : A → Reply A
  status : Code → String → Reply A

pub record VerifySignatureRequest : Type 0 where
  pub public_key : Text
  pub sign_msg : Text
  pub signature_r : Text
  pub signature_s : Text

module _ (errorf : String → String) where
  unfoldable pub key_response : Text → Result (Option KeyData) → Reply GetKeyResponse
  key_response key_id (err e) = status not_found (errorf e)
  key_response key_id (ok none) = status not_found (errorf "key data is nil")
  key_response key_id (ok (some key_data)) = response (record {
    key_id = key_id;
    public_key = key_data.pubkey;
    threshold = key_data.threshold;
    all_party_id = key_data.all_party_id;
    status = key_data.status;
  })

  unfoldable pub get_key : (st : LocalStorage) → st.State → Text → Reply GetKeyResponse
  unfolding key_response
  get_key st s key_id =
      key_response key_id (get_latest_ready_key_data_by_key_id_from_storage st s key_id)

  -- btcec.ParsePubKey and ecdsa.Verify are parameters.
  module _ {PubKey : Type 0} (parse_pub_key : Text → Result PubKey)
      (verify : PubKey → Text → ℕ → ℕ → Bool) where
    unfoldable pub verify_with : VerifySignatureRequest → Result PubKey → Reply Bool
    verify_with request (err e) = status internal (errorf e)
    verify_with request (ok pub_key) = response (
        verify pub_key request.sign_msg (set_bytes request.signature_r)
          (set_bytes request.signature_s))

    unfoldable pub verify_signature : VerifySignatureRequest → Reply Bool
    unfolding verify_with
    verify_signature request = verify_with request (parse_pub_key request.public_key)

  -- There is no READY record that the key id selects, and the reply is NotFound; or the reply has the
  -- latest of these, under the asked id.
  abbrev pub IsLatestReply : (st : LocalStorage) → st.State → Text → Reply GetKeyResponse → Type 0
  IsLatestReply st s key_id r =
      (IsLatestUnder st s key_id none × (r ≡ status not_found (errorf "key data is nil")))
      ⊎ ((d : KeyData) × IsLatestUnder st s key_id (some d)
          × (r
              ≡ response (record {
                key_id = key_id;
                public_key = d.pubkey;
                threshold = d.threshold;
                all_party_id = d.all_party_id;
                status = ready;
              })))

  -- On a sound storage GetKey replies with the latest READY record that the key id selects, under
  -- the asked id, or with NotFound, where there is none.
  pub get_key-IsLatestReply :
      (st : LocalStorage) (s : st.State) (key_id : Text)
      → st.IsSound s
      → IsLatestReply st s key_id (get_key st s key_id)
  unfolding get_key
  get_key-IsLatestReply st s key_id sound =
      let (o, h, latest) = get_latest_ready_lem st s key_id sound in by_record o h latest
    where
      by_record :
          (o : Option KeyData)
          → get_latest_ready_key_data_by_key_id_from_storage st s key_id ≡ ok o
          → IsLatestUnder st s key_id o
          → IsLatestReply st s key_id (get_key st s key_id)
      by_record none h latest = inl (latest, ap (key_response key_id) h)
      by_record (some d) h latest = inr (
        d,
        latest,
        ap (key_response key_id) h
            ∙ ap
                (λ x. response (record {
                  key_id = key_id;
                  public_key = d.pubkey;
                  threshold = d.threshold;
                  all_party_id = d.all_party_id;
                  status = x;
                }))
                latest.2,
      )

-- Manager.Start and Manager.Stop; GetLocalPartyId.
module _ {H : Type 0} (net : Network H) (no_local_handler : Text → String) where
  unfoldable pub start :
      H → H → LibP2PManager H net no_local_handler → Effect (LibP2PManager H net no_local_handler)
  start handle_key_gen handle_key_sign =
      register_all net no_local_handler
        (set (text "/tss/keyGen") handle_key_gen ∷ set (text "/tss/keySign") handle_key_sign ∷ [])

  unfoldable pub stop :
      LibP2PManager H net no_local_handler → Effect (LibP2PManager H net no_local_handler)
  stop =
      register_all net no_local_handler
        (remove (text "/tss/keySign") ∷ remove (text "/tss/keyGen") ∷ [])

  unfoldable pub get_local_party_id : LibP2PManager H net no_local_handler → Reply PartyId
  get_local_party_id m = response m.local_party_id
