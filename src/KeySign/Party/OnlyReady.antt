-- ===== src/KeySign/Party/OnlyReady.antt =====
-- The life cycle of the key records and handleKeySign together: which keys a party signs with.
use tss_server.Prelude.{String, inl, inr, true, some, ok, err, [], ◌≡◌, sym, ap, ◌∙◌}
use tss_server.Proto.{
  TssP2PMsg, KeyData, KeySignPrepareMsg, KeySignFinishMsg, key_sign_prepare, ready,
}
use tss_server.Storage.Contract.{LocalStorage}
use tss_server.Manager.Lifecycle.{Stored, Reach, Reach-IsSound}
use tss_server.Manager.Lifecycle.SavedData.{IsReadyOrBlank, OnlyReadySaves, Reach-OnlyReadySaves}
use tss_server.Session.{TssLib}
use tss_server.KeySign.Party.{SignLib, Environment, returned, handle_key_sign}
use tss_server.KeySign.Party.Signed.{handle_key_sign-IsSignedFor}

module _ (lib : TssLib) (signs : SignLib) (st : LocalStorage)
    (invalid_msg_type : TssP2PMsg → String) where
  open st use {State, IsSound}

  parsed-ready :
      (d : KeyData) (save_data : signs.SaveData) (e : String)
      → signs.unmarshal [] ≡ err e
      → signs.unmarshal d.save_data_json ≡ ok save_data
      → IsReadyOrBlank d
      → d.status ≡ ready
  parsed-ready d save_data e empty parsed (inl is_ready) = is_ready
  parsed-ready d save_data e empty parsed (inr (blank, _)) =
      cc (sym parsed ∙ ap signs.unmarshal blank ∙ empty)

  -- A party signs with no key but a READY one: when generations have started, finished and failed,
  -- from a sound storage in which only READY records held save data, and a call of handleKeySign
  -- reports a signature, the record that the prepare message names is READY. It holds where the
  -- empty text is no JSON.
  pub signed-ready :
      (env : Environment lib signs st invalid_msg_type) (s t : State) (m : KeySignPrepareMsg)
      (f : KeySignFinishMsg) (e : String)
      → signs.unmarshal [] ≡ err e
      → IsSound s
      → OnlyReadySaves st s
      → Reach st s t
      → (handle_key_sign lib signs st invalid_msg_type env t (ok (key_sign_prepare m))).answer
        ≡ returned (ok f)
      → f.is_success ≡ true
      → (d : KeyData) × (st.get_key_data_by_key_id_and_key_session_id t m.key_id m.key_session_id
          ≡ ok (some d))
        × (d.status ≡ ready)
  signed-ready env s t m f e empty sound only reach h success =
      let (signed_for, told, replied) =
        handle_key_sign-IsSignedFor lib signs st invalid_msg_type env t m f h success in
      let (d, at, valid, job, hm, ht, parsed, all, start, hp, found, signature, ended, same) =
        signed_for in
      let own = st.get_own_key t m.key_id m.key_session_id d (Reach-IsSound st sound reach) at in
      let stored : Stored st t d =
        st.get_same_key t d.key_id d.key_session_id m.key_id m.key_session_id own ∙ at in
      (
        d,
        at,
        parsed-ready d job.save_data e empty parsed (Reach-OnlyReadySaves st only reach d stored),
      )
