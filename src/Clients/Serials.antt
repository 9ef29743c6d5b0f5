-- ===== src/Clients/Serials.antt =====
-- The requests that the loops make, and what the first exchange that fails does to them.
use domq.Prelude.{
  ℕ, zero, suc, ◌+◌, true, false, Bool, List, [], ◌∷◌, Exception, name_error, attribute_error,
  Result, ok, raise, diverge, ◌>>=◌, ◌≡◌, ◌++◌, refl, ap, arith, Text,
}
use domq.Clients.{
  Request, get_msg, send_msg, gen_msg_no, new_get, new_send, reconnect, after_try, try_exchange,
  request_loop, put_loop, get_loop,
}
use domq.Strings.{str}

-- The requests of count rounds from a round on, with the numbers behind g.
abbrev pub puts : Text → Text → ℕ → ℕ → ℕ → List Request
puts code data_ zero i g = []
puts code data_ (suc count) i g =
    send_msg (suc g) code (data_ ++ b'_' ∷ str i) ∷ puts code data_ count (suc i) (suc g)

abbrev pub gets : Text → ℕ → ℕ → List Request
gets code zero g = []
gets code (suc count) g = get_msg (suc g) code 1 ∷ gets code count (suc g)

module _ {Conn : Type 0} (exchange : Request → Conn → Result Conn)
    (connect : Conn → Result Conn) where
  -- Exchanges one behind the other, up to the first that fails.
  abbrev pub exchange_all : List Request → Conn → Result Conn
  exchange_all [] conn = ok conn
  exchange_all (req ∷ requests) conn = do after ← exchange req conn; exchange_all requests after

  -- What a loop comes to, for what the exchanges alone come to: an exception of any of them is
  -- followed by the exception `error` of the report.
  abbrev pub with_report :
      Exception → List Request → ℕ → Result Conn → Result (List Request × (ℕ × Conn))
  with_report error requests g (ok last) = ok (requests, (g, last))
  with_report error requests g (raise e) = raise error
  with_report error requests g diverge = diverge

  with_report-cons :
      (error : Exception) (req : Request) (requests : List Request) (g : ℕ) (r : Result Conn)
      → (with_report error requests g r >>= λ (p : List Request × (ℕ × Conn)). ok (req ∷ p.0, p.1))
        ≡ with_report error (req ∷ requests) g r
  with_report-cons error req requests g (ok last) = refl
  with_report-cons error req requests g (raise e) = refl
  with_report-cons error req requests g diverge = refl

  -- The requests that a loop makes.
  abbrev made : (ℕ → ℕ → Request × ℕ) → ℕ → ℕ → ℕ → List Request
  made make zero i g = []
  made make (suc left) i g = (make i g).0 ∷ made make left (suc i) (suc g)

  -- A round whose report would raise AttributeError, and the rounds behind it.
  round-report :
      (req : Request) (requests : List Request) (g : ℕ) (conn : Conn)
      (next : Conn → Bool → Result (List Request × (ℕ × Conn))) (r : Result Conn)
      → ((after : Conn)
          → next after true ≡ with_report attribute_error requests g (exchange_all requests after))
      → (after_try exchange connect true req conn r >>= λ (p : Conn × Bool).
          next p.0 p.1 >>= λ (q : List Request × (ℕ × Conn)). ok (req ∷ q.0, q.1))
        ≡ with_report attribute_error (req ∷ requests) g (r >>= exchange_all requests)
  unfolding reconnect
  round-report req requests g conn next (ok after) h =
      rw (h after) (with_report-cons attribute_error req requests g (exchange_all requests after))
  round-report (get_msg _ _ _) requests g conn next (raise e) h = refl
  round-report (send_msg _ _ _) requests g conn next (raise e) h = refl
  round-report req requests g conn next diverge h = refl

  request_loop-report :
      (make : ℕ → ℕ → Request × ℕ)
      → ((i g : ℕ) → (make i g).1 ≡ suc g)
      → (left i g : ℕ) (conn : Conn)
      → request_loop exchange connect make left i true g conn
        ≡ with_report attribute_error
            (made make left i g)
            (g + left)
            (exchange_all (made make left i g) conn)
  unfolding request_loop try_exchange
  request_loop-report make h zero i g conn = let e : g + 0 ≡ g = omega arith in rw e
  request_loop-report make h (suc left) i g conn =
      let e : suc g + left ≡ g + suc left = omega arith in
      round-report (make i g).0 (made make left (suc i) (suc g)) (g + suc left) conn
        (λ after is_set. request_loop exchange connect make left (suc i) is_set (make i g).1 after)
        (exchange (make i g).0 conn)
        (λ after. rw (h i g, request_loop-report make h left (suc i) (suc g) after, e))

  made-puts :
      (code data_ : Text) (count i g : ℕ)
      → made (λ i g. new_send code (data_ ++ b'_' ∷ str i) g) count i g ≡ puts code data_ count i g
  unfolding new_send gen_msg_no
  made-puts code data_ zero i g = refl
  made-puts code data_ (suc count) i g =
      let e : g + 1 ≡ suc g = omega arith in rw (e, made-puts code data_ count (suc i) (suc g))

  made-gets :
      (code : Text) (count i g : ℕ) → made (λ i g. new_get code g) count i g ≡ gets code count g
  unfolding new_get gen_msg_no
  made-gets code zero i g = refl
  made-gets code (suc count) i g =
      let e : g + 1 ≡ suc g = omega arith in rw (e, made-gets code count (suc i) (suc g))

  -- The loop of test_put.py makes one request for each round, with numbers that follow one another
  -- from the next free one on and with the rounds in the texts, and exchanges them in order. If all
  -- exchanges succeed it comes to its end with these requests. The first exchange that fails ends
  -- it with an AttributeError, since the report shows the request by an attribute that it has not.
  pub put_loop_lem :
      (code data_ : Text) (count g : ℕ) (conn : Conn)
      → put_loop exchange connect code data_ count g conn
        ≡ with_report attribute_error
            (puts code data_ count 0 g)
            (g + count)
            (exchange_all (puts code data_ count 0 g) conn)
  unfolding put_loop
  put_loop_lem code data_ count g conn =
      let looped =
        request_loop-report (λ i g. new_send code (data_ ++ b'_' ∷ str i) g)
          (unfold new_send in unfold gen_msg_no in λ i g. omega arith) count 0 g conn in
      rw (made-puts code data_ count 0 g) at looped

  -- What the first exchange of test_get.py comes to, and the others behind it.
  abbrev pub after_first :
      Request → List Request → ℕ → Result Conn → Result (List Request × (ℕ × Conn))
  after_first req requests g (ok after) =
      with_report attribute_error (req ∷ requests) g (exchange_all requests after)
  after_first req requests g (raise e) = raise name_error
  after_first req requests g diverge = diverge

  first_round :
      (req : Request) (requests : List Request) (g : ℕ) (conn : Conn)
      (next : Conn → Bool → Result (List Request × (ℕ × Conn))) (r : Result Conn)
      → ((after : Conn)
          → next after true ≡ with_report attribute_error requests g (exchange_all requests after))
      → (after_try exchange connect false req conn r >>= λ (p : Conn × Bool).
          next p.0 p.1 >>= λ (q : List Request × (ℕ × Conn)). ok (req ∷ q.0, q.1))
        ≡ after_first req requests g r
  unfolding reconnect
  first_round req requests g conn next (ok after) h =
      rw (h after) (with_report-cons attribute_error req requests g (exchange_all requests after))
  first_round req requests g conn next (raise e) h = refl
  first_round req requests g conn next diverge h = refl

  -- The loop of test_get.py makes its requests in the same way. If the first exchange fails the loop
  -- ends with a NameError, since the report names `end`, which has no value then; and if a later one
  -- is the first to fail, with an AttributeError as in test_put.py. If all succeed it comes to its
  -- end with these requests.
  pub get_loop_lem :
      (code : Text) (rounds g : ℕ) (conn : Conn)
      → get_loop exchange connect code (suc rounds) g conn
        ≡ after_first
            (get_msg (suc g) code 1)
            (gets code rounds (suc g))
            (g + suc rounds)
            (exchange (get_msg (suc g) code 1) conn)
  unfolding get_loop request_loop try_exchange
  get_loop_lem code rounds g conn =
      let own : (new_get code g).0 ≡ get_msg (suc g) code 1 =
        unfold new_get in unfold gen_msg_no in ap (λ n. get_msg n code 1) (omega arith) in
      let behind : (i g : ℕ) → (new_get code g).1 ≡ suc g =
        unfold new_get in unfold gen_msg_no in λ i g. omega arith in
      let e : suc g + rounds ≡ g + suc rounds = omega arith in
      rw own (
        first_round (get_msg (suc g) code 1) (gets code rounds (suc g)) (g + suc rounds) conn
          (λ after is_set.
            request_loop exchange connect (λ i g. new_get code g) rounds 1 is_set (new_get code g).1
              after)
          (exchange (get_msg (suc g) code 1) conn)
          (λ after. rw (
            behind 0 g,
            request_loop-report (λ i g. new_get code g) behind rounds 1 (suc g) after,
            made-gets code rounds 1 (suc g),
            e,
          )))
