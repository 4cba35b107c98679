-- ===== src/Timers/Map.antt =====
-- The ordered map `timers_`: keys are pairs of a time and a sequence number, ordered as pairs.
use handy_copy.Base.{
  All, Bool, List, Option, [], arith, if◌then◌else◌, ltb, none, refl, some, ℕ, ◌&&◌, ◌<◌, ◌==◌,
  ◌||◌, ◌∷◌, ◌≡◌, ◌⊎◌, Bool-cases, inl, inr, true, false, if_both, subst, ◌↔◌,
}

pub record Key : Type 0 where
  pub at : ℕ
  pub seq : ℕ

-- `operator<` and equality of `std::pair`
abbrev pub key_ltb : Key → Key → Bool
key_ltb a b = ltb a.at b.at || (a.at == b.at && ltb a.seq b.seq)

abbrev pub key_eq : Key → Key → Bool
key_eq a b = a.at == b.at && a.seq == b.seq

module _ {ℓ} {V : Type ℓ} where
  unfoldable pub find : Key → List (Key × V) → Option V
  find k [] = none
  find k ((j, w) ∷ m) = if key_eq k j then some w else find k m

  -- `m[k] = v`
  unfoldable pub assign : Key → V → List (Key × V) → List (Key × V)
  assign k v [] = (k, v) ∷ []
  assign k v ((j, w) ∷ m) =
      let rest = assign k v m in
      if key_ltb k j then (k, v) ∷ (j, w) ∷ m else if key_eq k j then (j, v) ∷ m else (j, w) ∷ rest

  -- `m.insert({k, v})`, which keeps what stands at `k`
  unfoldable pub insert : Key → V → List (Key × V) → List (Key × V)
  insert k v [] = (k, v) ∷ []
  insert k v ((j, w) ∷ m) =
      let rest = insert k v m in
      if key_ltb k j then (k, v) ∷ (j, w) ∷ m else if key_eq k j then (j, w) ∷ m else (j, w) ∷ rest

  unfoldable pub erase : Key → List (Key × V) → List (Key × V)
  erase k [] = []
  erase k ((j, w) ∷ m) = let rest = erase k m in if key_eq k j then m else (j, w) ∷ rest

pub key_eq_iff : (a b : Key) → (key_eq a b ≡ true) ↔ (a ≡ b)
key_eq_iff a b = ground arith

-- `a` is before `b`.
abbrev pub Before : Key → Key → Type 0
Before a b = (a.at < b.at) ⊎ ((a.at ≡ b.at) × (a.seq < b.seq))

module _ {ℓ} {V : Type ℓ} where
  -- All keys are behind `k`.
  abbrev pub Above : Key → List (Key × V) → Type 0
  Above k = All (λ p. Before k p.0)

  abbrev pub IsSorted : List (Key × V) → Type 0
  IsSorted [] = Unit
  IsSorted ((k, _) ∷ m) = Above k m × IsSorted m

  Above-trans : (m : List (Key × V)) (a b : Key) → Before a b → Above b m → Above a m
  Above-trans [] a b h t = tt
  Above-trans ((c, _) ∷ m) a b h t = (ground arith, Above-trans m a b h t.1)

  -- A new key is put in its place, by either function.
  Above-assign :
      (k j : Key) (v : V) (m : List (Key × V)) → Before j k → Above j m → Above j (assign k v m)
  unfolding assign
  Above-assign k j v [] h t = (h, tt)
  Above-assign k j v ((c, w) ∷ m) h t = ground (arith, Above-assign k j v m h t.1)

  pub assign-IsSorted :
      (k : Key) (v : V) (m : List (Key × V)) → IsSorted m → IsSorted (assign k v m)
  unfolding assign
  assign-IsSorted k v [] s = (tt, tt)
  assign-IsSorted k v ((j, w) ∷ m) s =
      ground (arith, assign-IsSorted k v m s.1, Above-trans m k j, Above-assign k j v m)

  Above-erase : (k j : Key) (m : List (Key × V)) → Above j m → Above j (erase k m)
  unfolding erase
  Above-erase k j [] t = tt
  Above-erase k j ((c, w) ∷ m) t = ground (arith, Above-erase k j m t.1)

  pub erase-IsSorted : (k : Key) (m : List (Key × V)) → IsSorted m → IsSorted (erase k m)
  unfolding erase
  erase-IsSorted k [] s = tt
  erase-IsSorted k ((j, w) ∷ m) s = ground (arith, erase-IsSorted k m s.1, Above-erase k j m s.0)

  pub find_below : (k : Key) (m : List (Key × V)) → Above k m → find k m ≡ none
  unfolding find
  find_below k [] t = refl
  find_below k ((j, w) ∷ m) t = ground (arith, find_below k m t.1)

  pub find_same : (k i : Key) (m : List (Key × V)) → Above i m → key_eq k i ≡ true → find k m ≡ none
  unfolding find
  find_same k i [] t e = refl
  find_same k i ((j, w) ∷ m) t e = ground (arith, find_same k i m t.1)

  pub find-assign :
      (k j : Key) (v : V) (m : List (Key × V))
      → IsSorted m
      → find j (assign k v m) ≡ (if key_eq j k then some v else find j m)
  unfolding find assign
  find-assign k j v [] s = refl
  find-assign k j v ((i, w) ∷ m) s = ground (arith, find-assign k j v m s.1)

  pub find-erase :
      (k j : Key) (m : List (Key × V))
      → IsSorted m
      → find j (erase k m) ≡ (if key_eq j k then none else find j m)
  unfolding find erase
  find-erase k j [] s = ground arith
  find-erase k j ((i, w) ∷ m) s = elim (Bool-cases (key_eq k i)) [
    | inl e ↦ rw (e, erase) (ground (arith, find_same j i m s.0))
    | inr e ↦ rw (e, erase) (ground (arith, find-erase k j m s.1))
  ]

  -- A key that is not there is put in by `insert` as by an assignment.
  pub insert_new :
      (k : Key) (v : V) (m : List (Key × V))
      → IsSorted m
      → find k m ≡ none
      → insert k v m ≡ assign k v m
  unfolding find insert assign
  insert_new k v [] s h = refl
  insert_new k v ((j, w) ∷ m) s h = ground (arith, insert_new k v m s.1)

  pub All-assign {κ} :
      (P : Key × V → Type κ) (k : Key) (v : V) (m : List (Key × V))
      → P (k, v)
      → All P m
      → All P (assign k v m)
  unfolding assign
  All-assign P k v [] h t = (h, tt)
  All-assign P k v ((j, w) ∷ m) h t =
      if_both (All P) (key_ltb k j) (h, t)
        (elim (Bool-cases (key_eq k j)) [
          | inl e ↦ rw e (subst (λ i. P (i, v)) ((key_eq_iff k j).0 e) h, t.1)
          | inr e ↦ rw e (t.0, All-assign P k v m h t.1)
        ])

  pub All-erase {κ} :
      (P : Key × V → Type κ) (k : Key) (m : List (Key × V)) → All P m → All P (erase k m)
  unfolding erase
  All-erase P k [] t = tt
  All-erase P k ((j, w) ∷ m) t = if_both (All P) (key_eq k j) t.1 (t.0, All-erase P k m t.1)

  -- What a key is found to hold is an entry of the map.
  pub All-find {κ} :
      (P : Key × V → Type κ) (k : Key) (v : V) (m : List (Key × V))
      → All P m
      → find k m ≡ some v
      → P (k, v)
  unfolding find
  All-find P k v [] t h = cc
  All-find P k v ((j, w) ∷ m) t h = elim (Bool-cases (key_eq k j)) [
    | inl e ↦ subst (λ p. P p) (ground (arith, (key_eq_iff k j).0 e)) t.0
    | inr e ↦ All-find P k v m t.1 (ground arith)
  ]

  Above-other :
      (k j : Key) (m : List (Key × V))
      → Above j m
      → key_eq k j ≡ true
      → All (λ (p : Key × V). key_eq k p.0 ≡ false) m
  Above-other k j [] t e = tt
  Above-other k j ((i, w) ∷ m) t e = (ground arith, Above-other k j m t.1 e)

  -- After `erase` the key is gone.
  pub erase_gone :
      (k : Key) (m : List (Key × V))
      → IsSorted m
      → All (λ (p : Key × V). key_eq k p.0 ≡ false) (erase k m)
  unfolding erase
  erase_gone k [] s = tt
  erase_gone k ((j, w) ∷ m) s = elim (Bool-cases (key_eq k j)) [
    | inl e ↦ rw (e, erase) (Above-other k j m s.0 e)
    | inr e ↦ rw (e, erase) (e, erase_gone k m s.1)
  ]

  pub erase-assign :
      (k : Key) (v : V) (m : List (Key × V)) → find k m ≡ none → erase k (assign k v m) ≡ m
  unfolding find assign erase
  erase-assign k v [] h = rw ((key_eq_iff k k).1 refl) refl
  erase-assign k v ((j, w) ∷ m) h = ground (arith, erase-assign k v m)
