-- ===== src/Storage/Reading.antt =====
-- Which records a reading of entries gives.
use tss_server.Prelude.{
  Text, has_prefix, Bool-cases, true, false, Bool, if◌then◌else◌, inl, inr, List, [], ◌∷◌, Memᴰ,
  All, ok, ◌>>=◌, >>=-eq-ok, ok_injective, ◌≡◌, refl, sym, ap, ◌∙◌, subst,
}
use mathlib.Core.List.Memᴰ
use tss_server.Proto.{KeyData}
use tss_server.Storage.External.{Codec}
use tss_server.Storage.Scan.{under, read_all}

HasEntry : Text → List (Text × Text) → Text × Text → Type 0
HasEntry prefix es e = Memᴰ e es × (has_prefix e.0 prefix ≡ true)

under_step :
    (prefix k v : Text) (rest us : List (Text × Text)) (e : Text × Text) (b : Bool)
    → has_prefix k prefix ≡ b
    → (Memᴰ e us → HasEntry prefix rest e)
    → Memᴰ e (if b then (k, v) ∷ us else us)
    → HasEntry prefix ((k, v) ∷ rest) e
unfolding HasEntry
under_step prefix k v rest us e true hit ih (Memᴰ.head p) =
    (Memᴰ.head p, subst (λ (f : Text × Text). has_prefix f.0 prefix ≡ true) (sym p) hit)
under_step prefix k v rest us e true hit ih (Memᴰ.tail n) = (Memᴰ.tail (ih n).0, (ih n).1)
under_step prefix k v rest us e false miss ih n = (Memᴰ.tail (ih n).0, (ih n).1)

pub under-Memᴰ :
    (prefix : Text) (es : List (Text × Text)) (e : Text × Text)
    → Memᴰ e (under prefix es)
    → Memᴰ e es × (has_prefix e.0 prefix ≡ true)
unfolding under HasEntry
under-Memᴰ prefix [] e m = elim m [ ]
under-Memᴰ prefix ((k, v) ∷ rest) e m =
    under_step prefix k v rest (under prefix rest) e (has_prefix k prefix) refl
      (λ n. under-Memᴰ prefix rest e n) m

pub Memᴰ-under :
    (prefix : Text) (es : List (Text × Text)) (e : Text × Text)
    → Memᴰ e es
    → has_prefix e.0 prefix ≡ true
    → Memᴰ e (under prefix es)
unfolding under
Memᴰ-under prefix [] e m h = elim m [ ]
Memᴰ-under prefix ((k, v) ∷ rest) e (Memᴰ.head p) h =
    let hit : has_prefix k prefix ≡ true =
      subst (λ (f : Text × Text). has_prefix f.0 prefix ≡ true) p h in
    rw hit (Memᴰ.head p)
Memᴰ-under prefix ((k, v) ∷ rest) e (Memᴰ.tail m) h = elim (Bool-cases (has_prefix k prefix)) [
  | inl hit ↦ rw hit (Memᴰ.tail (Memᴰ-under prefix rest e m h))
  | inr miss ↦ rw miss (Memᴰ-under prefix rest e m h)
]

module _ (codec : Codec KeyData) where
  open codec use {unmarshal}

  abbrev pub Decodes : Text × Text → Type 0
  Decodes e = (d : KeyData) × (unmarshal e.1 ≡ ok d)

  All-Decodes :
      (es : List (Text × Text)) → ((e : Text × Text) → Memᴰ e es → Decodes e) → All Decodes es
  All-Decodes [] f = tt
  All-Decodes (e ∷ es) f = (f e (Memᴰ.head refl), All-Decodes es (λ x m. f x (Memᴰ.tail m)))

  pub read_all_total :
      (es : List (Text × Text))
      → ((e : Text × Text) → Memᴰ e es → Decodes e)
      → (ds : List KeyData) × (read_all codec es ≡ ok ds)
  unfolding read_all
  read_all_total [] f = ([], refl)
  read_all_total ((k, v) ∷ es) f =
      let here : Decodes (k, v) = f (k, v) (Memᴰ.head refl) in
      let (ds, h) = read_all_total es (λ x m. f x (Memᴰ.tail m)) in
      (here.0 ∷ ds, rw (here.1, ◌>>=◌, h))

  -- Every record that a reading gives is the value of one of its entries.
  pub read_all-Memᴰ :
      (es : List (Text × Text)) (ds : List KeyData) (d : KeyData)
      → read_all codec es ≡ ok ds
      → Memᴰ d ds
      → (e : Text × Text) × Memᴰ e es × (unmarshal e.1 ≡ ok d)
  unfolding read_all
  read_all-Memᴰ [] ds d h m = absurd (Memᴰ.not-nil (subst (Memᴰ d) (sym (ok_injective h)) m))
  read_all-Memᴰ ((k, v) ∷ es) ds d h m =
      let (x, hx, hr) = >>=-eq-ok (unmarshal v) _ h in
      let (xs, hs, he) = >>=-eq-ok (read_all codec es) _ hr in
      first_or_later x xs hx (λ n. read_all-Memᴰ es xs d hs n)
        (subst (Memᴰ d) (sym (ok_injective he)) m)
    where
      first_or_later :
          (x : KeyData) (xs : List KeyData)
          → unmarshal v ≡ ok x
          → (Memᴰ d xs → (e : Text × Text) × Memᴰ e es × (unmarshal e.1 ≡ ok d))
          → Memᴰ d (x ∷ xs)
          → (e : Text × Text) × Memᴰ e ((k, v) ∷ es) × (unmarshal e.1 ≡ ok d)
      first_or_later x xs hx ih (Memᴰ.head p) = ((k, v), Memᴰ.head refl, hx ∙ ap ok (sym p))
      first_or_later x xs hx ih (Memᴰ.tail n) = let (e, me, he) = ih n in (e, Memᴰ.tail me, he)

  -- The value of every entry is among the records.
  pub Memᴰ-read_all :
      (es : List (Text × Text)) (ds : List KeyData) (e : Text × Text) (d : KeyData)
      → read_all codec es ≡ ok ds
      → Memᴰ e es
      → unmarshal e.1 ≡ ok d
      → Memᴰ d ds
  unfolding read_all
  Memᴰ-read_all [] ds e d h m u = elim m [ ]
  Memᴰ-read_all ((k, v) ∷ es) ds e d h m u =
      let (x, hx, hr) = >>=-eq-ok (unmarshal v) _ h in
      let (xs, hs, he) = >>=-eq-ok (read_all codec es) _ hr in
      subst (Memᴰ d) (ok_injective he) (elim (Memᴰ.cases_cons m) [
        | inl p ↦ Memᴰ.head (ok_injective (sym u ∙ ap (λ (f : Text × Text). unmarshal f.1) p ∙ hx))
        | inr n ↦ Memᴰ.tail (Memᴰ-read_all es xs e d hs n u)
      ])
