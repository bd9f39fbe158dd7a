-- ===== src/Manager/Lifecycle/OneLive.antt =====
-- No key id ever has two live records.
use tss_server.Prelude.{has_prefix, true, ◌≡◌, ◌≢◌, inl, inr, sym, ap, ◌∙◌, subst}
use tss_server.Proto.{KeyData}
use tss_server.Storage.{db_key, key_prefix}
use tss_server.Storage.Contract.{LocalStorage}
use tss_server.Manager.Lifecycle.{
  IsLive, Stored, Step, Reach, here, next, Writes, fresh, moved, Step-Writes, Reach-IsSound,
  after_write, has_prefix-db_key,
}

module _ (st : LocalStorage) where
  open st use {State, IsSound}

  -- No key id has two live records.
  abbrev pub AtMostOneLive : State → Type 0
  AtMostOneLive s =
      (d e : KeyData)
      → Stored st s d
      → Stored st s e
      → d.key_id ≡ e.key_id
      → IsLive d
      → IsLive e
      → d ≡ e

  -- A live record beside the one that is written belongs to another key id.
  other_key :
      (s : State) (n d : KeyData)
      → AtMostOneLive s
      → Writes st s n
      → Stored st s d
      → db_key n.key_id n.key_session_id ≢ db_key d.key_id d.key_session_id
      → IsLive d
      → n.key_id ≢ d.key_id
  other_key s n d one (fresh p free) stored apart live same =
      free d stored
        (subst (λ k. has_prefix (db_key d.key_id d.key_session_id) (key_prefix k) ≡ true) (sym same)
          (has_prefix-db_key d.key_id d.key_session_id))
        live
  other_key s n d one (moved o so po io) stored apart live same =
      let e : o ≡ d =
        one o d so stored (sym (ap (λ (x : KeyData). x.key_id) io.0) ∙ same) (inr po) live in
      apart (cc (ap (λ (x : KeyData). db_key x.key_id x.key_session_id) io.0, e))

  Step-AtMostOneLive : {s t : State} → IsSound s → AtMostOneLive s → Step st s t → AtMostOneLive t
  Step-AtMostOneLive {s} {t} sound one step d e sd se k ld le =
      let (n, h, w) = Step-Writes st sound step in
      elim (after_write st s t n d h sd) [
        | inl p ↦ elim (after_write st s t n e h se) [
          | inl q ↦ p ∙ sym q
          | inr (q, apart) ↦
              absurd (other_key s n e one w q apart le (ap (λ (x : KeyData). x.key_id) (sym p) ∙ k))
        ]
        | inr (p, apart) ↦ elim (after_write st s t n e h se) [
          | inl q ↦
              absurd
                (other_key s n d one w p apart ld (ap (λ (x : KeyData). x.key_id) (sym q) ∙ sym k))
          | inr (q, _) ↦ one d e p q k ld le
        ]
      ]

  -- However generations start, finish and fail, from a sound storage in which no key id has two
  -- live (READY or PENDING) records, no key id ever gets two.
  pub Reach-AtMostOneLive :
      {s t : State} → IsSound s → AtMostOneLive s → Reach st s t → AtMostOneLive t
  Reach-AtMostOneLive sound one here = one
  Reach-AtMostOneLive sound one (next r step) =
      Step-AtMostOneLive (Reach-IsSound st sound r) (Reach-AtMostOneLive sound one r) step
