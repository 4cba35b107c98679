-- ===== src/Slice/Tests.antt =====
-- `Slice` at concrete bytes.
use handy_copy.Base.{All, ◌≡◌, refl, [], ◌∷◌, codes, some, none, Bytes, ◌++◌, List}
use handy_copy.Slice.{eat_word, eat_line, eat, sub, trim_space, split, Slice}
use handy_copy.Slice.Split.{join, join-split, NoByte, split-join}

abbrev request : Bytes
request = codes "  GET /x HTTP/1.1\r\nHost: a"

eat_word-request : eat_word request ≡ (codes "GET", codes " /x HTTP/1.1\r\nHost: a")
unfolding eat_word
eat_word-request = refl

eat_line-request : eat_line request ≡ (codes "  GET /x HTTP/1.1", codes "\r\nHost: a")
unfolding eat_line
eat_line-request = refl

eat_limits :
    (eat 2 (codes "abc") ≡ some (codes "ab", codes "c"))
    × (eat 4 (codes "abc") ≡ none)
    × (sub 0 1 (codes "host:") ≡ codes "host")
unfolding eat sub
eat_limits = (refl, refl, refl)

trim_space-both : trim_space (codes " a b\t") ≡ codes "a b"
unfolding trim_space
trim_space-both = refl

split-fields : split b',' (codes "a,,b,") ≡ codes "a" ∷ [] ∷ codes "b" ∷ [] ∷ []
unfolding split
split-fields = refl

join-split_example :
    (join b',' (split b',' (codes "a,b")) ≡ codes "a,b")
    × All (NoByte b',') (split b',' (codes "a,b"))
join-split_example = join-split b',' (codes "a,b")

abbrev fields : List Slice
fields = codes "a" ∷ [] ∷ []

split-join_example : split b',' (join b',' (fields ++ codes "b" ∷ [])) ≡ fields ++ codes "b" ∷ []
unfolding join
split-join_example =
    split-join b',' fields (codes "b") ((refl, tt), (tt, tt)) (refl, tt) (λ e. cc e)
