-- ===== src/Manager/Lifecycle/Transitions.antt =====
-- What one step may do to a record.
use tss_server.Prelude.{
  has_prefix, true, some, ok, ok_injective, some_injective, ==_iff, ◌==◌, Bool-cases, ◌≡◌, inl, inr,
  refl, sym, ap, ◌∙◌, subst,
}
use tss_server.Proto.{KeyData, pending, ready}
use tss_server.Storage.{db_key, key_prefix}
use tss_server.Storage.Contract.{LocalStorage}
use tss_server.Manager.Lifecycle.{
  IsLive, IsOutcome, Stored, Step, Reach, here, next, Writes, fresh, moved, Step-Writes,
  Reach-IsSound, has_prefix-db_key,
}

-- What may stand under a record's key after a step.
pub data Successor (d : KeyData) (e : KeyData) : Type 0 where
  same : e ≡ d → Successor d e
  outcome : d.status ≡ pending → IsOutcome d e → Successor d e
  restart : ¬ IsLive d → e.status ≡ pending → Successor d e

module _ (st : LocalStorage) where
  open st use {State, IsSound}

  -- What a write puts in the place of the record under its key.
  replaced :
      (s : State) (n d : KeyData)
      → Writes st s n
      → Stored st s d
      → db_key n.key_id n.key_session_id ≡ db_key d.key_id d.key_session_id
      → Successor d n
  replaced s n d (fresh p free) stored e =
      restart
        (free d stored (
          subst (λ k. has_prefix k (key_prefix n.key_id) ≡ true) e
            (has_prefix-db_key n.key_id n.key_session_id)))
        p
  replaced s n d (moved o so po io) stored e =
      let own : db_key o.key_id o.key_session_id ≡ db_key d.key_id d.key_session_id =
        sym (ap (λ (x : KeyData). db_key x.key_id x.key_session_id) io.0) ∙ e in
      let is_d : o ≡ d = some_injective (
        ok_injective (
          sym so
          ∙ st.get_same_key s o.key_id o.key_session_id d.key_id d.key_session_id own
          ∙ stored)) in
      outcome (ap (λ (x : KeyData). x.status) (sym is_d) ∙ po) (subst (λ x. IsOutcome x n) is_d io)

  -- A step leaves no record without a successor under its key: the record itself; if it is
  -- PENDING, its outcome, which is READY or ERROR; if it is neither PENDING nor READY, a new
  -- PENDING record.
  pub Step-Successor :
      {s t : State} (d : KeyData)
      → IsSound s
      → Step st s t
      → Stored st s d
      → (e : KeyData) × (st.get_key_data_by_key_id_and_key_session_id t d.key_id d.key_session_id
          ≡ ok (some e))
        × Successor d e
  Step-Successor {s} {t} d sound step stored =
      let (n, h, w) = Step-Writes st sound step in
      let own = db_key n.key_id n.key_session_id in
      let key = db_key d.key_id d.key_session_id in
      let at = st.get-set s t n d.key_id d.key_session_id h in
      elim (Bool-cases (own == key)) [
        | inl e ↦ (n, rw e at at, replaced s n d w stored ((==_iff own key).0 e))
        | inr e ↦ (d, rw e at at ∙ stored, same refl)
      ]

  Successor-ready : (d e : KeyData) → d.status ≡ ready → Successor d e → e ≡ d
  Successor-ready d e r (same p) = p
  Successor-ready d e r (outcome p _) = cc
  Successor-ready d e r (restart dead _) = absurd (dead (inl r))

  Step-ready :
      {s t : State} (d : KeyData)
      → IsSound s
      → Step st s t
      → Stored st s d
      → d.status ≡ ready
      → Stored st t d
  Step-ready {s} {t} d sound step stored r =
      let (e, at, how) = Step-Successor d sound step stored in
      at ∙ ap (λ x. ok (some x)) (Successor-ready d e r how)

  -- A READY record stays as it is, whatever generations start, finish or fail later.
  pub Reach-ready :
      {s t : State} (d : KeyData)
      → IsSound s
      → Reach st s t
      → Stored st s d
      → d.status ≡ ready
      → Stored st t d
  Reach-ready d sound here stored r = stored
  Reach-ready d sound (next before step) stored r =
      Step-ready d (Reach-IsSound st sound before) step (Reach-ready d sound before stored r) r
