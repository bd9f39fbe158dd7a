-- ===== src/Tests/SortedMap.antt =====
-- A database for the runs: an association list in ascending order of the keys.
use tss_server.Prelude.{
  Text, ◌==◌, ==_iff, before, before_irrefl, before_trans, before_total, true, false, Bool-cases,
  inl, inr, Option, none, some, List, [], ◌∷◌, Memᴰ, All, All-mono, All-Memᴰ, some_injective,
  if◌then◌else◌, ◌≡◌, refl, sym, ap, ◌∙◌, subst, arith,
}
use mathlib.Core.List.Memᴰ
use tss_server.Storage.External.{Db, IsAscending}

abbrev pub Entries : Type 0
Entries = List (Text × Text)

abbrev pub Above : Text → Entries → Type 0
Above k = All (λ (e : Text × Text). before k e.0 ≡ true)

unfoldable pub lookup : Text → Entries → Option Text
lookup k [] = none
lookup k ((j, v) ∷ es) = if j == k then some v else lookup k es

unfoldable pub insert : Text → Text → Entries → Entries
insert k v [] = (k, v) ∷ []
insert k v ((j, w) ∷ es) =
    let rest = insert k v es in
    if before k j then (k, v) ∷ (j, w) ∷ es else if j == k then (k, v) ∷ es else (j, w) ∷ rest

unfoldable pub remove : Text → Entries → Entries
remove k [] = []
remove k ((j, w) ∷ es) = let rest = remove k es in if j == k then rest else (j, w) ∷ rest

unfoldable pub from : Text → Entries → Entries
from start [] = []
from start ((j, w) ∷ es) = let rest = from start es in if before j start then rest else (j, w) ∷ es

before-ne : (a b : Text) → before a b ≡ true → (a == b) ≡ false
before-ne a b h = elim (Bool-cases (a == b)) [
  | inl e ↦ cc (before_irrefl a, (==_iff a b).0 e)
  | inr e ↦ e
]

==_comm : (a b : Text) → (a == b) ≡ (b == a)
==_comm a b = ground (arith, ==_iff a b, ==_iff b a)

lookup-Above : (k : Text) (es : Entries) → Above k es → lookup k es ≡ none
unfolding lookup
lookup-Above k [] h = refl
lookup-Above k ((j, w) ∷ es) h = rw (==_comm j k, before-ne k j h.0) (lookup-Above k es h.1)

pub lookup-insert :
    (k j v : Text) (es : Entries)
    → lookup j (insert k v es) ≡ (if k == j then some v else lookup j es)
unfolding lookup insert
lookup-insert k j v [] = refl
lookup-insert k j v ((i, w) ∷ es) =
    ground (arith, ==_iff k j, ==_iff i k, ==_iff i j, lookup-insert k j v es, before_irrefl k)

pub lookup-remove :
    (k j : Text) (es : Entries) → lookup j (remove k es) ≡ (if k == j then none else lookup j es)
unfolding lookup remove
lookup-remove k j [] = ground arith
lookup-remove k j ((i, w) ∷ es) =
    ground (arith, ==_iff k j, ==_iff i k, ==_iff i j, lookup-remove k j es)

Above-insert :
    (j k v : Text) (es : Entries) → before j k ≡ true → Above j es → Above j (insert k v es)
unfolding insert
Above-insert j k v [] h a = (h, tt)
Above-insert j k v ((i, w) ∷ es) h a = ground (arith, Above-insert j k v es h a.1)

pub insert-IsAscending : (k v : Text) (es : Entries) → IsAscending es → IsAscending (insert k v es)
unfolding insert
insert-IsAscending k v [] a = (tt, tt)
insert-IsAscending k v ((j, w) ∷ es) a = elim (Bool-cases (before k j)) [
  | inl lt ↦ rw lt ((lt, All-mono es (λ e h. before_trans k j e.0 lt h) a.0), a)
  | inr ge ↦ rw ge (elim (Bool-cases (j == k)) [
    | inl e ↦ rw e (subst (λ x. Above x es) ((==_iff j k).0 e) a.0, a.1)
    | inr ne ↦ rw ne (
      Above-insert j k v es (before_total k j ge (==_comm k j ∙ ne)) a.0,
      insert-IsAscending k v es a.1,
    )
  ])
]

Above-remove : (j k : Text) (es : Entries) → Above j es → Above j (remove k es)
unfolding remove
Above-remove j k [] a = tt
Above-remove j k ((i, w) ∷ es) a = ground (arith, Above-remove j k es a.1)

pub remove-IsAscending : (k : Text) (es : Entries) → IsAscending es → IsAscending (remove k es)
unfolding remove
remove-IsAscending k [] a = tt
remove-IsAscending k ((j, w) ∷ es) a =
    ground (arith, Above-remove j k es a.0, remove-IsAscending k es a.1)

pub from-IsAscending : (start : Text) (es : Entries) → IsAscending es → IsAscending (from start es)
unfolding from
from-IsAscending start [] a = tt
from-IsAscending start ((j, w) ∷ es) a = ground (arith, from-IsAscending start es a.1)

past_start :
    (start j k : Text) → before j start ≡ false → before j k ≡ true → before k start ≡ false
past_start start j k h l = elim (Bool-cases (before k start)) [
  | inl e ↦ cc (before_trans j k start l e, h)
  | inr e ↦ e
]

pub from_not_before :
    (start : Text) (es : Entries)
    → IsAscending es
    → All (λ (e : Text × Text). before e.0 start ≡ false) (from start es)
unfolding from
from_not_before start [] a = tt
from_not_before start ((j, w) ∷ es) a = elim (Bool-cases (before j start)) [
  | inl lt ↦ rw lt (from_not_before start es a.1)
  | inr ge ↦ rw ge (ge, All-mono es (λ e h. past_start start j e.0 ge h) a.0)
]

pub from-Memᴰ : (start : Text) (es : Entries) (e : Text × Text) → Memᴰ e (from start es) → Memᴰ e es
unfolding from
from-Memᴰ start [] e m = m
from-Memᴰ start ((j, w) ∷ es) e m = elim (Bool-cases (before j start)) [
  | inl lt ↦ Memᴰ.tail (from-Memᴰ start es e (rw lt at m))
  | inr ge ↦ rw ge at m
]

pub Memᴰ-lookup :
    (k v : Text) (es : Entries) → IsAscending es → Memᴰ (k, v) es → lookup k es ≡ some v
unfolding lookup
Memᴰ-lookup k v [] a m = elim m [ ]
Memᴰ-lookup k v ((j, w) ∷ es) a m = elim (Memᴰ.cases_cons m) [
  | inl e ↦
      rw ((==_iff j k).1 (sym (ap (λ (x : Text × Text). x.0) e)))
        (ap (λ (x : Text × Text). some x.1) (sym e))
  | inr n ↦
      rw (before-ne j k (All-Memᴰ (λ (e : Text × Text). before j e.0 ≡ true) a.0 n))
        (Memᴰ-lookup k v es a.1 n)
]

lookup_Memᴰ : (k v : Text) (es : Entries) → lookup k es ≡ some v → Memᴰ (k, v) es
unfolding lookup
lookup_Memᴰ k v [] h = cc
lookup_Memᴰ k v ((j, w) ∷ es) h = elim (Bool-cases (j == k)) [
  | inl e ↦ Memᴰ.head (cc ((==_iff j k).0 e, some_injective (rw e at h)))
  | inr ne ↦ Memᴰ.tail (lookup_Memᴰ k v es (rw ne at h))
]

pub lookup-from :
    (start k v : Text) (es : Entries)
    → lookup k es ≡ some v
    → before k start ≡ false
    → Memᴰ (k, v) (from start es)
unfolding lookup from
lookup-from start k v [] h b = cc
lookup-from start k v ((j, w) ∷ es) h b = elim (Bool-cases (before j start)) [
  | inl lt ↦ rw lt (elim (Bool-cases (j == k)) [
    | inl e ↦ cc (ap (λ x. before x start) ((==_iff j k).0 e), lt, b)
    | inr ne ↦ lookup-from start k v es (rw ne at h) b
  ])
  | inr ge ↦ rw ge (elim (Bool-cases (j == k)) [
    | inl e ↦ Memᴰ.head (cc ((==_iff j k).0 e, some_injective (rw e at h)))
    | inr ne ↦ Memᴰ.tail (lookup_Memᴰ k v es (rw ne at h))
  ])
]

pub record Map : Type 0 where
  pub entries : Entries
  pub ascending : IsAscending entries

abbrev pub empty : Map
empty = record { entries = []; ascending = tt }

abbrev pub sorted_map : Db
sorted_map = record {
  State = Map;
  get = λ s k. lookup k s.entries;
  set_sync = λ s k v. record {
    entries = insert k v s.entries;
    ascending = insert-IsAscending k v s.entries s.ascending;
  };
  delete_sync = λ s k. record {
    entries = remove k s.entries;
    ascending = remove-IsAscending k s.entries s.ascending;
  };
  iterator = λ s start. from start s.entries;
  get-set_sync = λ s k j v. lookup-insert k j v s.entries;
  get-delete_sync = λ s k j. lookup-remove k j s.entries;
  iterator-IsAscending = λ s start. from-IsAscending start s.entries s.ascending;
  iterator_from = λ s start. from_not_before start s.entries s.ascending;
  iterator_stored =
      λ s start k v m. Memᴰ-lookup k v s.entries s.ascending (from-Memᴰ start s.entries (k, v) m);
  stored_iterator = λ s start k v h b. lookup-from start k v s.entries h b;
}
