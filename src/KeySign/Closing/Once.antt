-- ===== src/KeySign/Closing/Once.antt =====
-- Each ready stream of a call of KeySign that returns is closed once.
use tss_server.Prelude.{
  ℕ, suc, zero, ◌+◌, ◌-◌, ◌≤◌, ◌<◌, ◌^◌, false, Bool-cases, inl, inr, List, [], ◌∷◌, ◌++◌, map,
  length, take, drop, ltb, eqb, Text, String, some, ok, subst, ◌≡◌, ◌≢◌, refl, sym, ap, ◌∙◌, arith,
  Permᴰ-append,
}
use mathlib.Core.List.{Permᴰ}
use tss_server.Prelude.Int.{pos, int32, eqb_ℤ}
use tss_server.Proto.{KeyData}
use tss_server.P2p.{P2PStream}
use tss_server.P2p.StreamMap.{StreamMap}
use tss_server.P2p.StreamMap.Distinct.{
  HasDistinctRemotes, HasDistinctRemotes-left, map_streams, map_streams-stored, length-map_streams,
  nothing_stored,
}
use tss_server.KeySign.{Report}
use tss_server.KeySign.Ready.{Event, stream, proceed, cancel_streams}
use tss_server.KeySign.Finish.{Finished}
use tss_server.KeySign.Outcome.{same_count}
use tss_server.KeySign.Quorum.{wait_for_ready-proceed}
use tss_server.KeySign.Calls.{AllReported, eqb-same, waited, key_sign-after_wait}
use tss_server.KeySign.Success.{values, IsOpen, take_ready-take}
use tss_server.KeySign.Run.{
  Environment, Run, Pick, pick_done, pick_error, pick_value, report_errors, report_streams,
  take_ready, key_sign, after_wait, finish_run,
}
use tss_server.KeySign.Closing.{
  deferred_closes, cancel_closes, left_streams, closed_after, closed_streams,
}

cancel_streams-all :
    (n cnt : ℕ) (rest : List P2PStream)
    → n < 2 ^ 31
    → cnt + length rest ≤ n
    → cancel_streams (int32 n) cnt (map stream rest) ≡ rest
unfolding cancel_streams
cancel_streams-all n cnt [] bound few = refl
cancel_streams-all n cnt (p ∷ []) bound few =
    elim (Bool-cases (eqb_ℤ (int32 (cnt + 1)) (int32 n))) [
      | inl last ↦ rw last refl
      | inr more ↦ rw more refl
    ]
cancel_streams-all n cnt (p ∷ q ∷ ps) bound few =
    let before_last : eqb (cnt + 1) n ≡ false = ground arith in
    rw (same_count (cnt + 1) n (omega arith) bound, before_last)
      (ap (λ l. p ∷ l) (cancel_streams-all n (cnt + 1) (q ∷ ps) bound (omega arith)))

length-both : (ready rest : List P2PStream) → length (ready ++ rest) ≡ length ready + length rest
length-both [] rest = omega arith
length-both (p ∷ ready) rest = ground (arith, length-both ready rest)

none_left : (rest : List P2PStream) → length rest ≤ 0 → rest ≡ []
none_left [] h = refl
none_left (p ∷ rest) h = absurd (omega arith)

-- The streams that come before others in what a loop takes are the first in the channel.
take_ready-first :
    (picks : List Pick) (errs : List String) (ps qs : List P2PStream) (left : List Event)
    → take_ready picks errs ps ≡ map stream qs ++ left
    → (rest : List P2PStream) × (ps ≡ qs ++ rest)
unfolding take_ready
take_ready-first picks errs ps [] left h = (ps, refl)
take_ready-first [] errs ps (q ∷ qs) left h = cc
take_ready-first (pick_done e ∷ picks) errs ps (q ∷ qs) left h = cc
take_ready-first (pick_error ∷ picks) [] ps (q ∷ qs) left h =
    take_ready-first picks [] ps (q ∷ qs) left h
take_ready-first (pick_error ∷ picks) (e ∷ errs) ps (q ∷ qs) left h = cc
take_ready-first (pick_value ∷ picks) errs [] (q ∷ qs) left h =
    take_ready-first picks errs [] (q ∷ qs) left h
take_ready-first (pick_value ∷ picks) errs (p ∷ ps) (q ∷ qs) left h =
    let (rest, same) = take_ready-first picks errs ps qs left (cc h) in (rest, cc (h, same))

take-all : (k : ℕ) (ps : List P2PStream) → length ps ≤ k → take k ps ≡ ps
take-all zero [] h = refl
take-all (suc k) [] h = refl
take-all zero (p ∷ ps) h = absurd (omega arith)
take-all (suc k) (p ∷ ps) h = ap (λ l. p ∷ l) (take-all k ps (omega arith))

drop-length : (qs rest : List P2PStream) → drop (length qs) (qs ++ rest) ≡ rest
drop-length [] rest = refl
drop-length (q ∷ qs) rest = drop-length qs rest

length-events :
    (qs : List P2PStream) (left : List Event)
    → length (map stream qs ++ left) - length left ≡ length qs
length-events [] left = omega arith
length-events (q ∷ qs) left = let rest = length-longer qs left in omega arith
  where
    length-longer :
        (ps : List P2PStream) (l : List Event) → length (map stream ps ++ l) ≡ length ps + length l
    length-longer [] l = omega arith
    length-longer (p ∷ ps) l = ground (arith, length-longer ps l)

length-report_streams : (rs : List Report) → length (report_streams rs) ≤ length rs
unfolding report_streams
length-report_streams [] = omega arith
length-report_streams (Report.silent ∷ rs) = let h = length-report_streams rs in omega arith
length-report_streams (Report.failed e ∷ rs) = let h = length-report_streams rs in omega arith
length-report_streams (Report.ready p ∷ rs) = let h = length-report_streams rs in omega arith

deferred_closes-returned :
    (range : StreamMap → List P2PStream) (m : StreamMap) (f : Finished)
    → f ≢ Finished.waiting
    → deferred_closes range m f ≡ range m
unfolding deferred_closes
deferred_closes-returned range m Finished.waiting h = absurd (h refl)
deferred_closes-returned range m (Finished.returned e) h = refl
deferred_closes-returned range m (Finished.signed r) h = refl
deferred_closes-returned range m (Finished.all_failed e) h = refl

-- The goroutine closes all that is left, where its `select` takes all of it.
cancel_closes-all :
    (n : ℕ) (m : StreamMap) (picks : List Pick) (rest : List P2PStream)
    → n < 2 ^ 31
    → length m + length rest ≤ n
    → IsOpen picks
    → length rest ≤ values picks
    → cancel_closes n m picks rest ≡ rest
unfolding cancel_closes
cancel_closes-all n m picks rest bound few open_ enough = elim (Bool-cases (ltb (length m) n)) [
  | inl fewer ↦
      let taken : take_ready picks [] rest ≡ map stream rest =
        take_ready-take picks rest open_ ∙ ap (map stream) (take-all (values picks) rest enough) in
      rw (fewer, taken) (cancel_streams-all n (length m) rest bound few)
  | inr full ↦
      let over : n ≤ length m = ground (arith, full) in rw full (sym (none_left rest (omega arith)))
]

module _ (env : Environment) (session_id : Text) (named : env.uuid ≡ ok session_id) (d : KeyData)
    (t : ℕ) (threshold : d.threshold ≡ pos t) (small : t < 2 ^ 31 - 1)
    (bound : length d.all_party_id < 2 ^ 31) where
  -- Once the parties that it needs are there, a call of KeySign that returns, with a signature or
  -- an error, closes each stream of a ready party exactly once, those that it kept and those that
  -- it did not need: if the first loop goes on with a map, the streams that are closed are those
  -- of the goroutines that ended with a ready stream, in some order. The call has a session id, is
  -- on a key of n parties, n < 2^31, with a threshold t < 2^31 - 1, the goroutines of all parties
  -- have ended, no two of the streams are to one party, and the cancelling goroutine takes all that
  -- is left in the channel before the context ends. It holds in whatever order the deferred
  -- function goes over the map.
  pub closed_streams-all :
      (range : StreamMap → List P2PStream) (cancel_picks : List Pick) (m : StreamMap)
      (left : List Event)
      → ((k : StreamMap) → Permᴰ (range k) (map_streams k))
      → IsOpen cancel_picks
      → length (report_streams env.reports) ≤ values cancel_picks
      → AllReported env d
      → HasDistinctRemotes (report_streams env.reports)
      → waited env d ≡ proceed m left
      → (key_sign env (ok (some d))).answer ≢ Finished.waiting
      → Permᴰ (closed_streams range env session_id d cancel_picks) (report_streams env.reports)
  unfolding closed_streams closed_after left_streams after_wait
  closed_streams-all range cancel_picks m left any open_ enough all apart goes_on returns =
      let ps = report_streams env.reports in
      let es = take_ready env.ready_picks (report_errors env.reports) ps in
      let (ready, taken, kept, size) =
        wait_for_ready-proceed t small es left [] m (omega arith) (rw threshold at goes_on) in
      let (rest, parts) =
        take_ready-first env.ready_picks (report_errors env.reports) ps ready left taken in
      let distinct = HasDistinctRemotes-left ready rest (subst HasDistinctRemotes parts apart) in
      let streams : map_streams m ≡ ready =
        ap map_streams kept ∙ map_streams-stored [] ready distinct (nothing_stored ready) in
      let total = ap length parts ∙ length-both ready rest in
      let kept_all = sym (length-map_streams m) ∙ ap length streams in
      let few = length-report_streams env.reports in
      let over : left_streams env left ≡ rest =
        ap (λ k. drop k ps) (ap (λ l. length l - length left) taken ∙ length-events ready left)
        ∙ ap (drop (length ready)) parts
        ∙ drop-length ready rest in
      let ended : (finish_run env session_id d m).answer ≢ Finished.waiting = λ same. returns (
        ap (λ (r : Run). r.answer)
          (key_sign-after_wait env session_id named d all
            ∙ ap (after_wait env session_id d) goes_on)
        ∙ same) in
      let deferred =
        deferred_closes-returned range m (finish_run env session_id d m).answer ended in
      let cancelled =
        cancel_closes-all (length d.all_party_id) m cancel_picks rest bound (omega arith) open_
          (omega arith) in
      rw (eqb-same _ _ all, goes_on, deferred, over, cancelled, parts)
        (Permᴰ-append rest (subst (Permᴰ (range m)) streams (any m)))
