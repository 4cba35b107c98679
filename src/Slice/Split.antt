-- ===== src/Slice/Split.antt =====
-- `split` cuts a slice at a separator: it is inverse to gluing the pieces with the separator.
use handy_copy.Base.{
  ℕ, true, false, ◌≡◌, ◌≢◌, refl, sym, ap, ◌∙◌, List, [], ◌∷◌, ◌++◌, append-nil, append_assoc, ◌==◌,
  Bool-cases, inl, inr, All, All-append, ==_iff,
}
use handy_copy.Slice.{Slice, split_loop, split}

abbrev pub NoByte : ℕ → Slice → Type 0
NoByte ch = All (λ c. (c == ch) ≡ false)

module _ (ch : ℕ) where
  -- Each piece with a separator behind it.
  abbrev pub glued : List Slice → Slice
  glued [] = []
  glued (p ∷ ps) = p ++ (ch ∷ glued ps)

  -- The pieces with a separator between each two.
  unfoldable pub join : List Slice → Slice
  join [] = []
  join (p ∷ []) = p
  join (p ∷ q ∷ ps) = p ++ (ch ∷ join (q ∷ ps))

  join-glued : (ps : List Slice) (q : Slice) → join (ps ++ (q ∷ [])) ≡ glued ps ++ q
  unfolding join
  join-glued [] q = refl
  join-glued (p ∷ []) q = simp append_assoc
  join-glued (p ∷ p' ∷ ps) q = rw append_assoc (ap (λ t. p ++ (ch ∷ t)) (join-glued (p' ∷ ps) q))

  glued-append :
      (ps : List Slice) (q : Slice) → glued (ps ++ (q ∷ [])) ≡ glued ps ++ (q ++ (ch ∷ []))
  glued-append [] q = refl
  glued-append (p ∷ ps) q = rw append_assoc (ap (λ t. p ++ (ch ∷ t)) (glued-append ps q))

  split_loop_cut :
      (c : ℕ) (piece s : Slice) (r : List Slice)
      → (c == ch) ≡ true
      → split_loop ch piece r (c ∷ s) ≡ split_loop ch [] (r ++ piece ∷ []) s
  unfolding split_loop
  split_loop_cut c piece s r e = rw (e, split_loop)

  split_loop_keep :
      (c : ℕ) (piece s : Slice) (r : List Slice)
      → (c == ch) ≡ false
      → split_loop ch piece r (c ∷ s) ≡ split_loop ch (piece ++ c ∷ []) r s
  unfolding split_loop
  split_loop_keep c piece s r e = rw (e, split_loop)

  -- The loop keeps the text that it has read, and its pieces hold no separator.
  split_loop-glued :
      (piece : Slice) (r : List Slice) (s : Slice)
      → glued (split_loop ch piece r s).1 ++ (split_loop ch piece r s).0 ≡ glued r ++ (piece ++ s)
  unfolding split_loop
  split_loop-glued piece r [] = rw append-nil
  split_loop-glued piece r (c ∷ s) = elim (Bool-cases (c == ch)) [
    | inl e ↦ rw (split_loop_cut c piece s r e) (
        split_loop-glued [] (r ++ piece ∷ []) s
        ∙ rw (glued-append, (==_iff c ch).0 e)
            (append_assoc (glued r) (piece ++ ch ∷ []) s
              ∙ ap (λ t. glued r ++ t) (append_assoc piece (ch ∷ []) s)))
    | inr e ↦ rw (split_loop_keep c piece s r e) (
        split_loop-glued (piece ++ c ∷ []) r s
        ∙ ap (λ t. glued r ++ t) (append_assoc piece (c ∷ []) s))
  ]

  split_loop-NoByte :
      (piece : Slice) (r : List Slice) (s : Slice)
      → NoByte ch piece
      → All (NoByte ch) r
      → NoByte ch (split_loop ch piece r s).0 × All (NoByte ch) (split_loop ch piece r s).1
  unfolding split_loop
  split_loop-NoByte piece r [] hp hr = (hp, hr)
  split_loop-NoByte piece r (c ∷ s) hp hr = elim (Bool-cases (c == ch)) [
    | inl e ↦
        rw (split_loop_cut c piece s r e)
          (split_loop-NoByte [] (r ++ piece ∷ []) s tt (All-append _ r _ hr (hp, tt)))
    | inr e ↦
        rw (split_loop_keep c piece s r e)
          (split_loop-NoByte (piece ++ c ∷ []) r s (All-append _ piece _ hp (e, tt)) hr)
  ]

  split_loop-append :
      (p piece rest : Slice) (r : List Slice)
      → NoByte ch p
      → split_loop ch piece r (p ++ rest) ≡ split_loop ch (piece ++ p) r rest
  unfolding split_loop
  split_loop-append [] piece rest r h = rw append-nil
  split_loop-append (c ∷ p) piece rest r h =
      split_loop_keep c piece (p ++ rest) r h.0
      ∙ split_loop-append p (piece ++ c ∷ []) rest r h.1
      ∙ rw append_assoc

  split_loop_pieces :
      (ps : List Slice) (q : Slice) (r : List Slice)
      → All (NoByte ch) ps
      → NoByte ch q
      → split_loop ch [] r (glued ps ++ q) ≡ (q, r ++ ps)
  unfolding split_loop
  split_loop_pieces [] q r hp hq =
      ap (split_loop ch [] r) (sym (append-nil q)) ∙ split_loop-append q [] [] r hq ∙ rw append-nil
  split_loop_pieces (p ∷ ps) q r hp hq =
      ap (split_loop ch [] r) (append_assoc p (ch ∷ glued ps) q)
      ∙ split_loop-append p [] (ch ∷ (glued ps ++ q)) r hp.0
      ∙ split_loop_cut ch p (glued ps ++ q) r ((==_iff ch ch).1 refl)
      ∙ split_loop_pieces ps q (r ++ p ∷ []) hp.1 hq
      ∙ rw append_assoc

  -- `split` loses no byte: its pieces, glued by the separator, give the slice back, and no piece
  -- holds the separator. (An empty slice has no piece.)
  pub join-split : (s : Slice) → (join (split ch s) ≡ s) × All (NoByte ch) (split ch s)
  unfolding split
  join-split [] = (unfold join in refl, tt)
  join-split (c ∷ s) =
      let (last, r) = split_loop ch [] [] (c ∷ s) in
      let parts = split_loop-NoByte [] [] (c ∷ s) tt tt in
      (
        join-glued r last ∙ split_loop-glued [] [] (c ∷ s),
        All-append _ r (last ∷ []) parts.1 (parts.0, tt),
      )

  split_of_cons :
      (s : Slice)
      → s ≢ []
      → split ch s ≡ (split_loop ch [] [] s).1 ++ (split_loop ch [] [] s).0 ∷ []
  unfolding split
  split_of_cons [] h = absurd (h refl)
  split_of_cons (c ∷ s) h = refl

  -- What was glued from pieces without the separator is cut into these pieces again, unless all of
  -- it is one empty piece.
  pub split-join :
      (ps : List Slice) (q : Slice)
      → All (NoByte ch) ps
      → NoByte ch q
      → join (ps ++ (q ∷ [])) ≢ []
      → split ch (join (ps ++ (q ∷ []))) ≡ ps ++ (q ∷ [])
  split-join ps q hp hq h =
      split_of_cons _ h ∙ rw (join-glued ps q, split_loop_pieces ps q [] hp hq)
