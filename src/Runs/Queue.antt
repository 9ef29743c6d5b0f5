-- ===== src/Runs/Queue.antt =====
-- The theorems at concrete inputs, and tests: the queue clients' scripts.
use domq.Prelude.{
  ◌≡◌, refl, ℕ, ◌+◌, ◌-◌, ltb, if◌then◌else◌, name_error, attribute_error, struct_error, Result, ok,
  raise, codes,
}
use domq.Clients.{Request, get_msg, put_loop, get_loop}
use domq.Clients.Serials.{
  puts, gets, exchange_all, with_report, after_first, put_loop_lem, get_loop_lem,
}

-- A connection is the number of answers that it still gives.
abbrev answer : Request → ℕ → Result ℕ
answer req n = if ltb 0 n then ok (n - 1) else raise struct_error

abbrev again : ℕ → Result ℕ
again c = ok 2

put_loop_lem_example :
    put_loop answer again (codes "q") (codes "x") 4 0 1
    ≡ with_report answer again attribute_error
        (puts (codes "q") (codes "x") 4 0 0)
        (0 + 4)
        (exchange_all answer again (puts (codes "q") (codes "x") 4 0 0) 1)
put_loop_lem_example = put_loop_lem answer again (codes "q") (codes "x") 4 0 1

get_loop_lem_example :
    get_loop answer again (codes "q") 3 7 0
    ≡ after_first answer again
        (get_msg 8 (codes "q") 1)
        (gets (codes "q") 2 8)
        (7 + 3)
        (answer (get_msg 8 (codes "q") 1) 0)
get_loop_lem_example = get_loop_lem answer again (codes "q") 2 7 0

second_put_fails : put_loop answer again (codes "q") (codes "x") 4 0 1 ≡ raise attribute_error
unfolding put_loop
second_put_fails = refl

first_get_fails : get_loop answer again (codes "q") 3 7 0 ≡ raise name_error
unfolding get_loop
first_get_fails = refl
