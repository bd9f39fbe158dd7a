-- ===== src/P2p/Node/Handlers.antt =====
-- Which handler a stream of a party to itself gets.
use tss_server.Prelude.{
  Text, String, ◌==◌, ==_iff, ==_refl, Option, none, some, List, [], ◌∷◌, ◌≡◌, refl, sym, ap, ◌∙◌,
  arith, if◌then◌else◌,
}
use tss_server.Proto.{PartyId}
use tss_server.P2p.Channel.{Effect, done, blocks, panics}
use tss_server.P2p.Node.{
  Network, store, load, delete, LibP2PManager, set_stream_handler, remove_stream_handler,
  open_local, new_stream,
}

module _ {H : Type 0} where
  load-store :
      (m : List (Text × H)) (k j : Text) (h : H)
      → load (store m k h) j ≡ (if k == j then some h else load m j)
  unfolding load store
  load-store [] k j h = refl
  load-store ((i, g) ∷ m) k j h =
      ground (arith, load-store m k j h, ==_iff i k, ==_iff k j, ==_iff i j)

  pub load-delete :
      (m : List (Text × H)) (k j : Text) → load (delete m k) j ≡ (if k == j then none else load m j)
  unfolding load delete
  load-delete [] k j = ground arith
  load-delete ((i, g) ∷ m) k j =
      ground (arith, load-delete m k j, ==_iff i k, ==_iff k j, ==_iff i j)

-- A call of SetStreamHandler or RemoveStreamHandler.
pub data Registration (H : Type 0) : Type 0 where
  set : Text → H → Registration H
  remove : Text → Registration H

-- The handler that the last registration of a protocol leaves it.
abbrev pub last_handler : {H : Type 0} → Text → Option H → List (Registration H) → Option H
last_handler k o [] = o
last_handler k o (set j h ∷ rs) = last_handler k (if j == k then some h else o) rs
last_handler k o (remove j ∷ rs) = last_handler k (if j == k then none else o) rs

last_handler-first :
    {H : Type 0} (k : Text) (o : Option H) (r : Registration H) (rs : List (Registration H))
    → last_handler k (last_handler k o (r ∷ [])) rs ≡ last_handler k o (r ∷ rs)
last_handler-first k o (set j h) rs = refl
last_handler-first k o (remove j) rs = refl

module _ {H : Type 0} (net : Network H) (no_local_handler : Text → String) where
  abbrev pub Manager : Type 0
  Manager = LibP2PManager H net no_local_handler

  unfoldable pub register : Registration H → Manager → Effect Manager
  register (set k h) m = set_stream_handler H net no_local_handler m k h
  register (remove k) m = remove_stream_handler H net no_local_handler m k

  unfoldable pub register_all : List (Registration H) → Manager → Effect Manager
  unfolding register
  register_all [] m = done m
  register_all (r ∷ rs) m = elim (register r m) [
    | done m' ↦ register_all rs m'
    | blocks ↦ blocks
    | panics ↦ panics
  ]

  register-done :
      (r : Registration H) (m : Manager) (s : net.State)
      → m.host ≡ some s
      → (m' : Manager) × (register r m ≡ done m')
        × (s' : net.State) × (m'.host ≡ some s')
        × (m'.local_party_id ≡ m.local_party_id)
        × ((k : Text)
            → load m'.local_handlers k ≡ last_handler k (load m.local_handlers k) (r ∷ []))
  unfolding register set_stream_handler remove_stream_handler
  register-done (set p h) m s up =
      let m' : Manager = record m {
        local_handlers = store m.local_handlers p h;
        host = some (net.set_stream_handler s p h);
      } in
      let registered : register (set p h) m ≡ done m' = rw up in
      (
        m',
        registered,
        net.set_stream_handler s p h,
        refl,
        refl,
        λ k. load-store m.local_handlers p k h,
      )
  register-done (remove p) m s up =
      let m' : Manager = record m {
        local_handlers = delete m.local_handlers p;
        host = some (net.remove_stream_handler s p);
      } in
      let registered : register (remove p) m ≡ done m' = rw up in
      (
        m',
        registered,
        net.remove_stream_handler s p,
        refl,
        refl,
        λ k. load-delete m.local_handlers p k,
      )

  -- When the host is up, registrations never panic, and then NewStream of the party to itself, on
  -- any protocol, opens a stream with the handler that the last of these left the protocol, or
  -- fails if that one removed it, or it had none.
  pub new_stream-last_handler :
      (rs : List (Registration H)) (m : Manager) (s : net.State)
      → m.host ≡ some s
      → (m' : Manager) × (register_all rs m ≡ done m')
        × ((k : Text)
            → new_stream H net no_local_handler m' m.local_party_id.id k
              ≡ done (
                  open_local H net no_local_handler k
                    (last_handler k (load m.local_handlers k) rs)))
  unfolding register_all new_stream
  new_stream-last_handler [] m s up = (m, refl, λ k. rw (==_refl m.local_party_id.id))
  new_stream-last_handler (r ∷ rs) m s up =
      let (m1, first, s1, up1, same, loads) = register-done r m s up in
      let (m2, rest, opens) = new_stream-last_handler rs m1 s1 up1 in
      (
        m2,
        rw (first, register_all) rest,
        λ k.
            ap (λ (p : PartyId). new_stream H net no_local_handler m2 p.id k) (sym same)
            ∙ opens k
            ∙ ap (λ o. done (open_local H net no_local_handler k (last_handler k o rs))) (loads k)
            ∙ ap (λ o. done (open_local H net no_local_handler k o))
                (last_handler-first k (load m.local_handlers k) r rs),
      )
