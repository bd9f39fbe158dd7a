-- ===== src/Manager/Latest.antt =====
-- What getLatestReadyKeyDataByKeyIdFromStorage returns.
use tss_server.Prelude.{
  ◌≤◌, ◌<◌, Option, none, some, List, [], ◌∷◌, ◌++◌, All, All-append, All-mono, All-Memᴰ, Memᴰ, inl,
  inr, ltb→lt, if◌then◌else◌, ◌≡◌, ◌≢◌, refl, sym, ap, ◌∙◌, subst, arith, ltb, Bool, true, false,
}
use mathlib.Core.List.Memᴰ
use mathlib.Core.List.{append_assoc, append-nil}
use tss_server.Proto.{KeyData, ready, is_status, is_status→eq, is_status→ne}
use tss_server.Manager.{later_ready, latest_ready}

abbrev EarlierReady : KeyData → KeyData → Type 0
EarlierReady d x = x.status ≡ ready → x.created_time < d.created_time

abbrev NoLaterReady : KeyData → KeyData → Type 0
NoLaterReady d x = x.status ≡ ready → x.created_time ≤ d.created_time

-- The first of the READY records with the greatest creation time, if there is a READY one.
abbrev pub IsLatestReady : List KeyData → Option KeyData → Type 0
IsLatestReady ds none = All (λ (x : KeyData). x.status ≢ ready) ds
IsLatestReady ds (some d) =
    (before : List KeyData) × (after : List KeyData) × (ds ≡ before ++ d ∷ after)
    × (d.status ≡ ready)
    × All (EarlierReady d) before
    × All (NoLaterReady d) after

module _ (ds : List KeyData) (x : KeyData) where
  first_ready :
      (b : Bool)
      → is_status x.status ready ≡ b
      → All (λ (y : KeyData). y.status ≢ ready) ds
      → IsLatestReady (ds ++ x ∷ []) (if b then some x else none)
  first_ready true e h =
      (ds, [], refl, is_status→eq x.status ready e, All-mono ds (λ y n r. absurd (n r)) h, tt)
  first_ready false e h = All-append _ ds (x ∷ []) h (is_status→ne x.status ready e, tt)

  -- `l` stays the latest.
  keep_latest :
      (l : KeyData)
      → IsLatestReady ds (some l)
      → NoLaterReady l x
      → IsLatestReady (ds ++ x ∷ []) (some l)
  keep_latest l (before, after, e, r, hb, ha) h = (
    before,
    after ++ x ∷ [],
    ap (λ t. t ++ x ∷ []) e ∙ append_assoc before (l ∷ after) (x ∷ []),
    r,
    hb,
    All-append _ after (x ∷ []) ha (h, tt),
  )

  -- `x` takes the place of `l`.
  replace_latest :
      (l : KeyData)
      → IsLatestReady ds (some l)
      → x.status ≡ ready
      → l.created_time < x.created_time
      → IsLatestReady (ds ++ x ∷ []) (some x)
  replace_latest l (before, after, e, r, hb, ha) rx h = (
    ds,
    [],
    refl,
    rx,
    subst (All (EarlierReady x)) (sym e) (
        All-append (EarlierReady x) before (l ∷ after)
          (All-mono before (λ y f ry. let g = f ry in omega arith) hb)
          ((λ _. h), All-mono after (λ y f ry. let g = f ry in omega arith) ha)),
    tt,
  )

  next_ready :
      (l : KeyData) (b c : Bool)
      → is_status x.status ready ≡ b
      → ltb l.created_time x.created_time ≡ c
      → IsLatestReady ds (some l)
      → IsLatestReady (ds ++ x ∷ []) (if b then (if c then some x else some l) else some l)
  next_ready l true true e k h =
      replace_latest l h (is_status→eq x.status ready e) (ltb→lt l.created_time x.created_time k)
  next_ready l true false e k h = keep_latest l h (λ _. ground arith)
  next_ready l false c e k h = keep_latest l h (λ r. absurd (is_status→ne x.status ready e r))

  later_ready-IsLatestReady :
      (o : Option KeyData) → IsLatestReady ds o → IsLatestReady (ds ++ x ∷ []) (later_ready o x)
  unfolding later_ready
  later_ready-IsLatestReady none h = first_ready (is_status x.status ready) refl h
  later_ready-IsLatestReady (some l) h =
      next_ready l (is_status x.status ready) (ltb l.created_time x.created_time) refl refl h

latest_ready_from :
    (done ds : List KeyData) (o : Option KeyData)
    → IsLatestReady done o
    → IsLatestReady (done ++ ds) (latest_ready o ds)
unfolding latest_ready
latest_ready_from done [] o h = rw append-nil h
latest_ready_from done (x ∷ ds) o h =
    rw (sym (append_assoc done (x ∷ []) ds)) (
      latest_ready_from (done ++ x ∷ []) ds (later_ready o x)
        (later_ready-IsLatestReady done x o h))

-- The loop of getLatestReadyKeyDataByKeyIdFromStorage finds the READY record with the greatest
-- creation time, the first of those in the list, and nil just where no record is READY.
pub latest_ready-IsLatestReady : (ds : List KeyData) → IsLatestReady ds (latest_ready none ds)
latest_ready-IsLatestReady ds = latest_ready_from [] ds none tt

-- No READY record is later than the latest one.
pub IsLatestReady-le :
    (ds : List KeyData) (d x : KeyData)
    → IsLatestReady ds (some d)
    → Memᴰ x ds
    → x.status ≡ ready
    → x.created_time ≤ d.created_time
IsLatestReady-le ds d x (before, after, e, r, hb, ha) m rx =
    elim (Memᴰ.append_cases before (subst (Memᴰ x) e m)) [
      | inl n ↦ let lt = All-Memᴰ (EarlierReady d) hb n rx in omega arith
      | inr n ↦ elim (Memᴰ.cases_cons n) [
        | inl p ↦ omega (arith, ap (λ (y : KeyData). y.created_time) p)
        | inr q ↦ All-Memᴰ (NoLaterReady d) ha q rx
      ]
    ]
