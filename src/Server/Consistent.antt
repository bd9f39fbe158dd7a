-- ===== src/Server/Consistent.antt =====
-- What holds of the storage of a server, whatever requests it serves.
use tss_server.Prelude.{List, [], ◌∷◌, All}
use tss_server.Storage.Contract.{LocalStorage}
use tss_server.Manager.Lifecycle.{Reach, here, Reach-trans, Reach-IsSound}
use tss_server.Manager.Lifecycle.OneLive.{AtMostOneLive, Reach-AtMostOneLive}
use tss_server.Manager.Lifecycle.SavedData.{OnlyReadySaves, Reach-OnlyReadySaves}
use tss_server.KeyGen.Party.Refines.{IsInterleaved, Reach-handle_key_gen}
use tss_server.Server.{
  Libraries, Manager, Request, key_gen_stream, key_sign_stream, key_sign_call, get_key_call,
  key_gen_seat, serve, serve_all,
}

module _ (libs : Libraries) (st : LocalStorage) where
  open st use {State, IsSound}

  -- Within a generation, the other goroutines write to the storage only as handlers of generations
  -- do.
  abbrev pub IsFair : Request libs st → Type 0
  IsFair (key_gen_stream env received) =
      IsInterleaved libs.lib libs.keys st libs.invalid_msg_type env
  IsFair _ = Unit {0}

  Reach-serve :
      (m : Manager libs st) (r : Request libs st)
      → IsFair r
      → Reach st m.local_storage (serve libs st m r).0.local_storage
  unfolding serve
  Reach-serve m (key_gen_stream env received) fair =
      Reach-handle_key_gen libs.lib libs.keys st libs.invalid_msg_type (key_gen_seat libs st m env)
        m.local_storage received fair
  Reach-serve m (key_sign_stream env received) fair = here
  Reach-serve m (key_sign_call env key_id) fair = here
  Reach-serve m (get_key_call key_id) fair = here

  pub Reach-serve_all :
      (m : Manager libs st) (rs : List (Request libs st))
      → All IsFair rs
      → Reach st m.local_storage (serve_all libs st m rs).local_storage
  unfolding serve_all
  Reach-serve_all m [] fair = here
  Reach-serve_all m (r ∷ rs) (fair, others) =
      Reach-trans st (Reach-serve m r fair) (Reach-serve_all (serve libs st m r).0 rs others)

  -- Every entry is a record of its own key; no key id has two live records; and only READY records
  -- hold save data or a public key.
  abbrev pub IsConsistent : State → Type 0
  IsConsistent s = IsSound s × AtMostOneLive st s × OnlyReadySaves st s

  -- Whatever requests a server serves, streams of generations and signatures and calls for keys,
  -- its storage stays consistent, if it is so at the start: every entry is a record of its own
  -- key, no key id has two live records, and only READY records hold save data or a public key.
  -- It holds whatever the network, the validator and tss-lib do, where what others do within a
  -- generation is to start, finish and fail generations.
  pub serve_all-IsConsistent :
      (m : Manager libs st) (rs : List (Request libs st))
      → All IsFair rs
      → IsConsistent m.local_storage
      → IsConsistent (serve_all libs st m rs).local_storage
  serve_all-IsConsistent m rs fair (sound, one, only) =
      let reached = Reach-serve_all m rs fair in
      (
        Reach-IsSound st sound reached,
        Reach-AtMostOneLive st sound one reached,
        Reach-OnlyReadySaves st only reached,
      )
