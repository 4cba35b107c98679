-- ===== src/Conf/Tests.antt =====
-- Runs of the parser, and the theorems on them.
use handy_copy.Slice.{is_space, skip_spaces}
use handy_copy.Conf.{
  parse, get_strings, get, get_boolean, find, make_key, parse_lines, parse_line, peek_char,
  skip_blanks, skip_one, section_line, more_line, value_line, store_value, match_char, consume_till,
  consume_till_end, span_till, span_value, rstrip, push_back,
}
use handy_copy.Conf.Lines.{Item, heading, setting}
use handy_copy.Conf.Errors.{parse_lines_lem, FirstBad, AllRead}
use handy_copy.Base.{Bytes, List, [], codes, false, refl, true, ◌∷◌, ◌≡◌, ◌⊎◌}

abbrev file : List Bytes
file =
    codes "; test\n"
    ∷ codes "[Net]  ; section\n"
    ∷ codes "port = 80 ; http\n"
    ∷ codes "  81\n"
    ∷ codes "on: yes\n"
    ∷ []

-- A value goes on in the next line, behind a blank.
run_file :
    ((parse file []).0 ≡ 0)
    × (get_strings (parse file []).1.values (codes "net") (codes "PORT")
        ≡ codes "80" ∷ codes "81" ∷ [])
    × (get_boolean (parse file []).1.values (codes "net") (codes "on") false ≡ true)
unfolding parse parse_lines parse_line peek_char skip_blanks skip_one section_line more_line
    value_line store_value match_char consume_till consume_till_end span_till span_value rstrip
    skip_spaces is_space push_back make_key find get get_strings get_boolean
run_file = (refl, refl, refl)

bad_line : (parse (codes "a=1\n" ∷ codes "b\n" ∷ codes "c=2\n" ∷ []) []).0 ≡ 2
unfolding parse parse_lines parse_line peek_char skip_blanks skip_one section_line more_line
    value_line store_value match_char consume_till consume_till_end span_till span_value rstrip
    skip_spaces is_space push_back make_key
bad_line = refl

-- Of `this is` the parser keeps the first word.
abbrev items : List Item
items = heading (codes "s") ∷ setting (codes "one") (codes "this") 32 (codes "is\n") ∷ []

parse_lines_lem_example :
    (((parse_lines 0 file (record { section = []; key = []; values = []; err = false })).0 ≡ 0)
      × AllRead file
          (record { section = []; key = []; values = []; err = false })
          (parse_lines 0 file (record { section = []; key = []; values = []; err = false })).1)
    ⊎ FirstBad 0 file
        (record { section = []; key = []; values = []; err = false })
        (parse_lines 0 file (record { section = []; key = []; values = []; err = false }))
parse_lines_lem_example =
    parse_lines_lem 0 file (record { section = []; key = []; values = []; err = false })
