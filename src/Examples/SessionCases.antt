-- ===== src/Examples/SessionCases.antt =====
-- A query that is answered.
use yspot.Prelude.{ℕ, zero, suc, refl, [], ◌∷◌, none, arith}
use yspot.Proto.Messages.{index_status_req}
use yspot.Service.State.{mft, new_state}
use yspot.Service.Session.{Query, Connection, connected, on_search_query, worker_step, on_message}
use yspot.Service.Session.Answers.{Calm, rest, moves, hears, IsAnswered}
use yspot.Service.Session.Answers.Ends.{on_search_query-IsAnswered}

abbrev start : Connection Unit
start = connected (new_state (b'C' ∷ []) mft)

abbrev query : Query
query = record {
  gen = 3;
  text = b'a' ∷ [];
  filters = record { ext = []; kind = none; path_substr = none };
  max_results = 10;
}

abbrev work : ℕ → Connection Unit → Connection Unit
work zero c = c
work (suc n) c = work n (worker_step [] c)

work-Calm : (n : ℕ) (c : Connection Unit) → Calm n c (work n c)
work-Calm zero c = rest
work-Calm (suc n) c = moves [] (work-Calm n (worker_step [] c))

-- The query is asked, then the status, and the worker works.
abbrev behind : Connection Unit
behind = work 9 (on_message 0 0 (index_status_req 1) (on_search_query query start))

run : Calm 9 (on_search_query query start) behind
unfolding on_search_query connected
run = hears 0 0 (index_status_req 1) refl refl (work-Calm 9 _)

on_search_query-IsAnswered_example : IsAnswered 3 behind
on_search_query-IsAnswered_example =
    on_search_query-IsAnswered query 9 start behind (unfold connected in refl)
      (unfold connected in refl) (unfold connected in refl) (unfold connected in omega arith)
      (omega arith) run
