-- ===== src/Server/Dealt.antt =====
-- Where the connections go that are accepted.
use mathlib.Core.Option
use handy_copy.Base.{
  All, Bool, List, [], if◌then◌else◌, length, some, true, ℕ, ◌%◌, ◌&&◌, ◌++◌, ◌+◌, ◌<◌, ◌==◌, ◌^◌,
  ◌∷◌, ◌≡◌, ap, append_assoc, ap₂, arith, if_both, if_cases, if_is_false, if_is_true, ltb, not,
  refl, sym, ◌∙◌, Option, false, subst, append-nil,
}
use handy_copy.Server.{
  Accepted, accept_all, accept_one, Server, alloc_base, base_at, add_con, Bases, handle_accept,
}

-- The descriptors that are fine, and those that are not.
abbrev pub is_fine : Accepted → Bool
is_fine a = a.has_peer && a.has_name

abbrev pub fine : List Accepted → List ℕ
fine [] = []
fine (a ∷ cs) = if is_fine a then a.fd ∷ fine cs else fine cs

abbrev pub faulty : List Accepted → List ℕ
faulty [] = []
faulty (a ∷ cs) = if is_fine a then faulty cs else a.fd ∷ faulty cs

-- The bases in turn, from a number on.
abbrev pub dealt : ℕ → ℕ → List ℕ → List (ℕ × ℕ)
dealt size c [] = []
dealt size c (fd ∷ fds) = (c % size, fd) ∷ dealt size (c + 1) fds

-- Those of a base, and those of the others.
abbrev pub of_base : ℕ → List (ℕ × ℕ) → List (ℕ × ℕ)
of_base b [] = []
of_base b (p ∷ ps) = if p.0 == b then p ∷ of_base b ps else of_base b ps

abbrev pub of_others : ℕ → List (ℕ × ℕ) → List (ℕ × ℕ)
of_others b [] = []
of_others b (p ∷ ps) = if p.0 == b then of_others b ps else p ∷ of_others b ps

abbrev pub IsFlagged : Accepted → Type 0
IsFlagged a = a.has_flag ≡ true

-- A server with bases of a size and an id, with more connections, and with more that is lost.
abbrev pub with_all : Server → ℕ → ℕ → List (ℕ × ℕ) → List ℕ → Server
with_all s size i ds fs = record s {
  bases = record { size = size; id = i };
  added = s.added ++ of_base s.base ds;
  called = s.called ++ of_others s.base ds;
  lost = s.lost ++ fs;
}

abbrev pub with_fds : Server → Bases → List ℕ → List ℕ → Server
with_fds s b fds fs = with_all s b.size (b.id + length fds) (dealt b.size b.id fds) fs

-- The server after it has accepted.
abbrev pub served : List Accepted → Server → Server
served cs s = with_fds s s.bases (fine cs) (faulty cs)

add_con-bases : (b fd : ℕ) (s : Server) → (add_con b fd s).bases ≡ s.bases
unfolding add_con
add_con-bases b fd s = if_both (λ (z : Server). z.bases ≡ s.bases) (b == s.base) refl refl

with_all-add_con :
    (b fd size i : ℕ) (ds : List (ℕ × ℕ)) (fs : List ℕ) (s : Server)
    → with_all (add_con b fd s) size i ds fs ≡ with_all s size i ((b, fd) ∷ ds) fs
unfolding add_con
with_all-add_con b fd size i ds fs s =
    let parts : List (ℕ × ℕ) → List (ℕ × ℕ) → Server = λ u v. record s {
      bases = record { size = size; id = i };
      added = u;
      called = v;
      lost = s.lost ++ fs;
    } in
    let mine = of_base s.base ds in
    let others = of_others s.base ds in
    if_cases (λ z. with_all z size i ds fs ≡ with_all s size i ((b, fd) ∷ ds) fs) (b == s.base)
      (λ e.
        ap₂ parts
          (append_assoc s.added ((b, fd) ∷ []) mine
            ∙ ap (λ z. s.added ++ z) (sym (if_is_true (b == s.base) ((b, fd) ∷ mine) mine e)))
          (ap (λ z. s.called ++ z) (sym (if_is_true (b == s.base) others ((b, fd) ∷ others) e))))
      (λ e.
        ap₂ parts (ap (λ z. s.added ++ z) (sym (if_is_false (b == s.base) ((b, fd) ∷ mine) mine e)))
          (append_assoc s.called ((b, fd) ∷ []) others
            ∙ ap (λ z. s.called ++ z)
                (sym (if_is_false (b == s.base) others ((b, fd) ∷ others) e))))

-- The bases of a server whose id is not at the end.
base_step :
    (c : Accepted) (s : Server)
    → s.bases.id < 2 ^ 31
    → is_fine c ≡ true
    → c.has_flag ≡ true
    → accept_one c s
      ≡ some (
          add_con
            (s.bases.id % s.bases.size)
            c.fd
            (record s { bases = record { size = s.bases.size; id = s.bases.id + 1 } }))
unfolding accept_one alloc_base base_at
base_step c s h e f =
    if_is_false (not (is_fine c)) _ _ (ap not e)
    ∙ if_is_false (not c.has_flag) _ _ (ap not f)
    ∙ ap₂
        (λ b i. some (add_con b c.fd (record s { bases = record { size = s.bases.size; id = i } })))
        (if_is_true (ltb s.bases.id (2 ^ 31)) _ _ (ground arith)) (omega (arith, h))

abbrev Fits : List Accepted → Server → Type 0
Fits cs s = s.bases.id + length (fine cs) < 2 ^ 31

abbrev Serves : List Accepted → Type 0
Serves cs = (s : Server) → Fits cs s → accept_all cs s ≡ some (served cs s)

fine-served :
    (a : Accepted) (cs : List Accepted) (s : Server)
    → a.has_flag ≡ true
    → Serves cs
    → Fits (a ∷ cs) s
    → is_fine a ≡ true
    → accept_all (a ∷ cs) s ≡ some (served (a ∷ cs) s)
unfolding accept_all Option.bind
fine-served a cs s f rest h e =
    let size = s.bases.size in
    let id = s.bases.id in
    let before : Server = record s { bases = record { size = size; id = id + 1 } } in
    let after = add_con (id % size) a.fd before in
    let same = add_con-bases (id % size) a.fd before in
    let room : id + length (a.fd ∷ fine cs) < 2 ^ 31 =
      subst (λ z. id + length z < 2 ^ 31) (if_is_true (is_fine a) (a.fd ∷ fine cs) (fine cs) e) h in
    let fits = subst (λ z. z.id + length (fine cs) < 2 ^ 31) (sym same) (omega (arith, room)) in
    ap (λ z. Option.bind z (accept_all cs)) (base_step a s (omega (arith, room)) e f)
    ∙ rest after fits
    ∙ ap (λ z. some (with_fds after z (fine cs) (faulty cs))) same
    ∙ ap some (
        with_all-add_con (id % size) a.fd size (id + 1 + length (fine cs))
          (dealt size (id + 1) (fine cs)) (faulty cs) before)
    ∙ ap (λ z. some (with_all s size z (dealt size id (a.fd ∷ fine cs)) (faulty cs))) (omega arith)
    ∙ ap₂ (λ u v. some (with_fds s s.bases u v))
        (sym (if_is_true (is_fine a) (a.fd ∷ fine cs) (fine cs) e))
        (sym (if_is_true (is_fine a) (faulty cs) (a.fd ∷ faulty cs) e))

faulty-served :
    (a : Accepted) (cs : List Accepted) (s : Server)
    → Serves cs
    → Fits (a ∷ cs) s
    → is_fine a ≡ false
    → accept_all (a ∷ cs) s ≡ some (served (a ∷ cs) s)
unfolding accept_all Option.bind accept_one
faulty-served a cs s rest h e =
    let after : Server = record s { lost = s.lost ++ a.fd ∷ [] } in
    let fits =
      subst (λ z. s.bases.id + length z < 2 ^ 31)
        (if_is_false (is_fine a) (a.fd ∷ fine cs) (fine cs) e) h in
    ap (λ z. Option.bind z (accept_all cs)) (if_is_true (not (is_fine a)) _ _ (ap not e))
    ∙ rest after fits
    ∙ ap (λ z. some (record (served cs s) { lost = z }))
        (append_assoc s.lost (a.fd ∷ []) (faulty cs))
    ∙ ap₂ (λ u v. some (with_fds s s.bases u v))
        (sym (if_is_false (is_fine a) (a.fd ∷ fine cs) (fine cs) e))
        (sym (if_is_false (is_fine a) (faulty cs) (a.fd ∷ faulty cs) e))

either_way : {P : Type 0} (b : Bool) → (b ≡ true → P) → (b ≡ false → P) → P
either_way true p q = p refl
either_way false p q = q refl

accept_all-served :
    (cs : List Accepted) (s : Server)
    → All IsFlagged cs
    → Fits cs s
    → accept_all cs s ≡ some (served cs s)
unfolding accept_all
accept_all-served [] s f h =
    let parts : ℕ → List (ℕ × ℕ) → List (ℕ × ℕ) → List ℕ → Option Server = λ i u v l.
      some (record s {
        bases = record { size = s.bases.size; id = i };
        added = u;
        called = v;
        lost = l;
      }) in
    sym (
      ap₂ (λ u v. parts (s.bases.id + 0) u v (s.lost ++ [])) (append-nil s.added)
        (append-nil s.called)
      ∙ ap₂ (λ i l. parts i s.added s.called l) (omega arith) (append-nil s.lost))
accept_all-served (a ∷ cs) s f h =
    let rest : Serves cs = λ z. accept_all-served cs z f.1 in
    either_way (is_fine a) (fine-served a cs s f.0 rest h) (faulty-served a cs s rest h)

-- A server that listens, and whose `id_` stays below 2 ^ 31, gives the connections whose two names it
-- gets to the bases in turn, from `id_` on: it makes those of its own base at once, and a task of
-- its base makes each of the others, in the order in which they were accepted. A descriptor of
-- which it does not get a name is lost: it stays open, and nothing keeps it. `addFdFlag` works on all.
pub handle_accept-served :
    (cs : List Accepted) (s : Server)
    → s.listening ≡ true
    → All IsFlagged cs
    → s.bases.id + length (fine cs) < 2 ^ 31
    → handle_accept cs s ≡ some (served cs s)
unfolding handle_accept
handle_accept-served cs s e f h = if_is_true s.listening _ _ e ∙ accept_all-served cs s f h
