-- ===== src/Server/Tests.antt =====
-- A server at concrete connections.
use mathlib.Core.Option
use handy_copy.Server.Dealt.{handle_accept-served, served}
use handy_copy.Base.{List, [], arith, false, refl, some, true, ◌∷◌, ◌≡◌}
use handy_copy.Server.{
  Accepted, Bases, Server, handle_accept, start_server, accept_all, alloc_base, accept_one, base_at,
  add_con,
}

abbrev arrivals : List Accepted
arrivals =
    record { fd = 10; has_peer = true; has_name = true; has_flag = true }
    ∷ record { fd = 11; has_peer = false; has_name = true; has_flag = true }
    ∷ record { fd = 12; has_peer = true; has_name = true; has_flag = true }
    ∷ record { fd = 13; has_peer = true; has_name = true; has_flag = true }
    ∷ []

abbrev three_bases : Bases
three_bases = record { size = 3; id = 0 }

abbrev ready_server : Server
ready_server = record {
  bases = record { size = 3; id = 1 };
  base = 0;
  listening = true;
  added = [];
  called = [];
  lost = [];
}

ready_server_is : start_server three_bases ≡ ready_server
unfolding start_server alloc_base base_at
ready_server_is = refl

arrivals_are :
    handle_accept arrivals ready_server
    ≡ some (record {
      bases = record { size = 3; id = 4 };
      base = 0;
      listening = true;
      added = (0, 13) ∷ [];
      called = (1, 10) ∷ (2, 12) ∷ [];
      lost = 11 ∷ [];
    })
unfolding handle_accept accept_all accept_one add_con alloc_base base_at Option.bind
arrivals_are = refl

handle_accept-served_example :
    handle_accept arrivals ready_server ≡ some (served arrivals ready_server)
handle_accept-served_example =
    handle_accept-served arrivals ready_server refl (refl, (refl, (refl, (refl, tt)))) (omega arith)
