-- ===== src/Conf/Lookup.antt =====
-- From the lines of a file to the values that are looked up.
use handy_copy.Conf.{Values, find, push_back, strings_of, make_key, Parser}
use handy_copy.Conf.Lines.{Item, heading, setting, meaning}
use handy_copy.Base.{
  Bool-cases, Bytes, List, [], ap, append-nil, equal, equal_iff, false, if◌then◌else◌, inl, inr,
  refl, sym, ◌++◌, ◌∙◌, ◌∷◌, ◌≡◌, some,
}

-- The entry that was pushed to.
found_same :
    (j i k v : Bytes) (vs : List Bytes) (m : Values)
    → equal j i ≡ equal j k
    → strings_of (if equal j i then some (vs ++ v ∷ []) else find j m)
      ≡ strings_of (if equal j i then some vs else find j m) ++ (if equal j k then v ∷ [] else [])
found_same j i k v vs m alike = elim (Bool-cases (equal j k)) [
  | inl is_k ↦ rw (alike, is_k) refl
  | inr not_k ↦ rw (alike, not_k) (sym (append-nil (strings_of (find j m))))
]

-- Another entry.
found_other :
    (j i k v : Bytes) (vs : List Bytes) (m : Values)
    → equal k i ≡ false
    → strings_of (find j (push_back k v m))
      ≡ strings_of (find j m) ++ (if equal j k then v ∷ [] else [])
    → strings_of (if equal j i then some vs else find j (push_back k v m))
      ≡ strings_of (if equal j i then some vs else find j m) ++ (if equal j k then v ∷ [] else [])
found_other j i k v vs m other behind = elim (Bool-cases (equal j i)) [
  | inl is_i ↦
      let j_other : equal j k ≡ false = elim (Bool-cases (equal j k)) [
        | inr not_k ↦ not_k
        | inl is_k ↦
            let k_is_i : k ≡ i = sym ((equal_iff j k).0 is_k) ∙ (equal_iff j i).0 is_i in
            absurd (cc (other, (equal_iff k i).1 k_is_i))
      ] in
      rw (is_i, j_other) (sym (append-nil vs))
  | inr not_i ↦ rw not_i behind
]

pub strings-push_back :
    (j k v : Bytes) (m : Values)
    → strings_of (find j (push_back k v m))
      ≡ strings_of (find j m) ++ (if equal j k then v ∷ [] else [])
unfolding find push_back
strings-push_back j k v [] = elim (Bool-cases (equal j k)) [
  | inl is_k ↦ rw is_k refl
  | inr not_k ↦ rw not_k refl
]
strings-push_back j k v ((i, vs) ∷ m) = elim (Bool-cases (equal k i)) [
  | inl same ↦
      let alike : equal j i ≡ equal j k = ap (equal j) (sym ((equal_iff k i).0 same)) in
      rw same (found_same j i k v vs m alike)
  | inr other ↦ rw other (found_other j i k v vs m other (strings-push_back j k v m))
]

-- All items, one after the other.
unfoldable pub meanings : List Item → Parser → Parser
meanings [] p = p
meanings (i ∷ items) p = meanings items (meaning i p)

-- The values that are set for the key `k`, from within the section `cur` on.
unfoldable pub chosen : Bytes → Bytes → List Item → List Bytes
chosen cur k [] = []
chosen cur k (heading s ∷ items) = chosen s k items
chosen cur k (setting name value blank more ∷ items) =
    (if equal k (make_key cur name) then value ∷ [] else []) ++ chosen cur k items
