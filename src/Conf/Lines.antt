-- ===== src/Conf/Lines.antt =====
-- What `parse` makes of the lines of a plain file.
use handy_copy.Slice.{is_space, skip_spaces}
use handy_copy.Slice.Split.{NoByte}
use handy_copy.Slice.Words.{NoSpaces}
use handy_copy.Conf.Scan.{
  skip_spaces_solid, span_till_found, NoComment, rstrip-NoSpaces, rstrip_blank, span_value_blank,
}
use handy_copy.Conf.{
  Parser, start, consume_till, consume_till_end, skip_blanks, peek_char, parse_line, section_line,
  value_line, store_value, skip_one, match_char, push_back, make_key,
}
use handy_copy.Base.{
  ==_iff, Bytes, [], arith, codes, false, length, refl, true, ℕ, ◌++◌, ◌<◌, ◌==◌, ◌||◌, ◌∷◌, ◌≡◌,
  ap,
}

-- `[name]`, and `name=value` with a blank and any more bytes behind it.
pub data Item : Type 0 where
  heading : Bytes → Item
  setting : Bytes → Bytes → ℕ → Bytes → Item

unfoldable pub render : Item → Bytes
render (heading s) = b'[' ∷ (s ++ b']' ∷ codes "\n")
render (setting name value blank more) = name ++ b'=' ∷ (value ++ blank ∷ more)

-- The first byte of a name: it starts no comment and no section.
abbrev pub StartsName : Bytes → Type 0
StartsName [] = ⊥
StartsName (x ∷ s) = ((x == b';' || x == b'#' || x == 0) ≡ false) × ((x == b'[') ≡ false)

pub record Plain (name value : Bytes) (blank : ℕ) : Type 0 where
  pub starts : StartsName name
  pub name_solid : NoSpaces name
  pub name_whole : NoByte b'=' name
  pub value_solid : NoSpaces value
  pub some_value : 0 < length value
  pub no_comment : NoComment value
  pub is_blank : is_space blank ≡ true

abbrev pub Clean : Item → Type 0
Clean (heading s) = NoSpaces s × NoByte b']' s
Clean (setting name value blank more) = Plain name value blank

-- What a line means.
unfoldable pub meaning : Item → Parser → Parser
meaning (heading s) p = record p { section = s; key = []; err = false }
meaning (setting name value blank more) p = record p {
  key = name;
  err = false;
  values = push_back (make_key p.section name) value p.values;
}

skip_word :
    (w r : Bytes) (c : ℕ) → NoSpaces w → is_space c ≡ false → skip_spaces (w ++ c ∷ r) ≡ w ++ c ∷ r
skip_word [] r c h g = skip_spaces_solid r c g
skip_word (x ∷ w) r c h g = skip_spaces_solid (w ++ c ∷ r) x h.0

consume_till_word :
    (c : ℕ) (w r : Bytes)
    → NoSpaces w
    → NoByte c w
    → is_space c ≡ false
    → consume_till c (start (w ++ c ∷ r)) ≡ (w, start (c ∷ r))
unfolding consume_till skip_blanks
consume_till_word c w r h n g =
    rw (skip_word w r c h g, span_till_found c w r n, (==_iff c c).1 refl, rstrip-NoSpaces w h) refl

skip_value :
    (v t : Bytes) (c : ℕ) → NoSpaces v → 0 < length v → skip_spaces (v ++ c ∷ t) ≡ v ++ c ∷ t
skip_value [] t c h some_value = absurd (omega arith)
skip_value (x ∷ v) t c h some_value = skip_spaces_solid (v ++ c ∷ t) x h.0

consume_till_end_word :
    (v t : Bytes) (c : ℕ)
    → NoSpaces v
    → 0 < length v
    → NoComment v
    → is_space c ≡ true
    → consume_till_end (start (v ++ c ∷ t)) ≡ (v, start t)
unfolding consume_till_end skip_blanks
consume_till_end_word v t c h some_value n b =
    rw (skip_value v t c h some_value, span_value_blank v t c h n b, rstrip_blank v c h b) refl

peek_solid :
    (c : ℕ) (s : Bytes) → is_space c ≡ false → peek_char (start (c ∷ s)) ≡ (c, start (c ∷ s))
unfolding peek_char skip_blanks
peek_solid c s h = rw (skip_spaces_solid s c h) refl

equals_solid : is_space b'=' ≡ false
unfolding is_space
equals_solid = refl

heading_lem :
    (s : Bytes) (p : Parser)
    → Clean (heading s)
    → parse_line (render (heading s)) p ≡ meaning (heading s) p
unfolding parse_line peek_char skip_blanks skip_one section_line match_char render meaning
    skip_spaces is_space
heading_lem s p h = rw (consume_till_word b']' s (codes "\n") h.0 h.1 refl) refl

setting_lem :
    (name value more : Bytes) (blank : ℕ) (p : Parser)
    → Plain name value blank
    → p.err ≡ false
    → parse_line (render (setting name value blank more)) p
      ≡ meaning (setting name value blank more) p
unfolding parse_line value_line store_value skip_one render meaning
setting_lem [] value more blank p h e = absurd h.starts
setting_lem (x ∷ name) value more blank p h e =
    let rest = value ++ blank ∷ more in
    rw
      (
        peek_solid x (name ++ b'=' ∷ rest) h.name_solid.0,
        h.starts.0,
        h.starts.1,
        h.name_solid.0,
        consume_till_word b'=' (x ∷ name) rest h.name_solid h.name_whole equals_solid,
        peek_solid b'=' rest equals_solid,
        consume_till_end_word value more blank h.value_solid h.some_value h.no_comment h.is_blank,
      )
      (ap
        (λ b. record p {
          key = x ∷ name;
          err = b;
          values = push_back (make_key p.section (x ∷ name)) value p.values;
        })
        e)

-- A line is read as what it means.
pub parse_line-render :
    (i : Item) (p : Parser) → Clean i → p.err ≡ false → parse_line (render i) p ≡ meaning i p
parse_line-render (heading s) p h e = heading_lem s p h
parse_line-render (setting name value blank more) p h e = setting_lem name value more blank p h e
