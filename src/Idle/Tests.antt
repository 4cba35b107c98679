-- ===== src/Idle/Tests.antt =====
-- Idle connections at concrete times.
use mathlib.Core.Option
use handy_copy.Idle.Aged.{Aged, InOption, last_time, run_ops-Aged}
use handy_copy.Idle.Calls.{all_due, call_idles-all_due, expire-zero}
use handy_copy.Idle.{
  Idles, IdleNode, Op, call_idles, expire, run_ops, no_idles, register, run_op, register_idle,
  update, push_at, unregister, update_idle, unregister_idle, change_at, touch, unlink, expire_all,
}
use handy_copy.Base.{List, Option, [], arith, none, refl, some, true, ℕ, ◌++◌, ◌/◌, ◌∷◌, ◌≡◌}

-- Two connections that may idle for 2 s, one for 5 s, and the first is active again at 3 s.
abbrev morning : List (ℕ × Op)
morning =
    (1000, register 2 7 0)
    ∷ (1500, register 5 8 1)
    ∷ (2900, register 2 9 0)
    ∷ (3100, update (2, 0))
    ∷ (4200, Op.tick)
    ∷ (4300, unregister (5, 1))
    ∷ []

abbrev calls_of : Option Idles → List (ℕ × ℕ)
calls_of none = []
calls_of (some i) = i.calls

morning_calls : calls_of (run_ops morning no_idles) ≡ (0, 9) ∷ []
unfolding run_ops run_op register_idle push_at update_idle unregister_idle change_at touch unlink
    call_idles expire_all expire Option.bind
morning_calls = refl

run_ops-Aged_example : InOption (Aged (last_time 0 morning)) (run_ops morning no_idles)
run_ops-Aged_example =
    run_ops-Aged 0 morning no_idles
      (
        omega arith,
        omega arith,
        (
          omega arith,
          omega arith,
          (omega arith, omega arith, (omega arith, tt, (omega arith, tt, (omega arith, tt, tt)))),
        ),
      )
      tt

abbrev first_node : IdleNode
first_node = record { iter = 0; con = 7; updated = 1; cb = 0 }

abbrev second_node : IdleNode
second_node = record { iter = 1; con = 8; updated = 4; cb = 0 }

abbrev two_idle : Idles
two_idle = record {
  lists = (2, first_node ∷ second_node ∷ []) ∷ [];
  enabled = true;
  ticks = 1;
  next_iter = 2;
  calls = [];
}

call_idles-all_due_example :
    call_idles 4500 two_idle
    ≡ some (record two_idle { calls = two_idle.calls ++ all_due (4500 / 1000) two_idle.lists })
call_idles-all_due_example =
    call_idles-all_due 4500 4 two_idle
      ((omega arith, (omega arith, (omega arith, tt), (omega arith, tt, tt))), tt)

expire-zero_example : expire 9 4 0 (first_node ∷ second_node ∷ []) ≡ none
expire-zero_example = expire-zero 9 4 first_node (second_node ∷ []) (omega arith, (omega arith, tt))
