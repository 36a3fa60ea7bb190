-- ===== src/Service/Session/Answers/Ends.antt =====
-- The run of the worker from a query on, up to its answer.
use yspot.Prelude.{
  ℕ, suc, ◌+◌, ◌≤◌, ◌≡◌, refl, sym, ◌∙◌, inl, inr, Bool, true, false, List, some, ltb, length,
  arith,
}
use mathlib.Core.Path.{subst}
use yspot.Matching.Selector.Sorted.{In-front, In-back}
use yspot.Proto.Messages.{
  ResultItem, Message, hello, hello_ack, search_query, content_search_query, search_results, cancel,
  index_status_req, index_status, session_state, pause_indexing, resume_indexing, ack, subscribe,
  event, error,
}
use yspot.Service.Session.{
  Query, Worker, waiting, taken, searching, assembled, writing, stopped, replied, Connection, reply,
  submit, fetch_max, filters_rejected, on_search_query, on_session_state, on_message, wake,
  unless_stale, write_page, worker_step, empty_final, max_query_bytes, is_empty_text, set_paused,
}
use yspot.Service.Session.Laws.{if_cases}
use yspot.Service.Session.Answers.{
  is_calm, Calm, rest, moves, hears, IsAnswered, Grows, Grows-IsAnswered, worker_step-Grows, Open,
  HasQuery, steps_left, is_running, Goes, own_step,
}

-- The worker is busy with another query, and this one is pending.
abbrev Waits : ℕ → Worker → Type 0
Waits k w = (is_running w ≡ true) × (steps_left w + 5 ≤ k)

steps_left-le : (w : Worker) → steps_left w ≤ 4
steps_left-le waiting = omega arith
steps_left-le stopped = omega arith
steps_left-le (taken q') = omega arith
steps_left-le (searching q') = omega arith
steps_left-le (assembled q' page) = omega arith
steps_left-le (writing q' page) = omega arith

module _ {Value : Type 0} (q : Query) where
  unless_stale-other :
      (q' : Query) (k : ℕ) (w : Worker) (c : Connection Value)
      → Open q c
      → c.pending ≡ some q
      → 5 ≤ k
      → Waits k w
      → Goes q k (unless_stale q' w c)
  unfolding unless_stale
  unless_stale-other q' k w c o p l h =
      if_cases (Goes q k) (ltb q'.gen c.latest_gen) (record c { worker = waiting })
        (record c { worker = w })
        (λ _.
          inl (record { mailbox = o.mailbox; pipe = o.pipe; newest = o.newest }, inr (refl, p, l)))
        (λ _.
          inl (record { mailbox = o.mailbox; pipe = o.pipe; newest = o.newest }, inr (h.0, p, h.1)))

  other_step :
      (items : List ResultItem) (k : ℕ) (c : Connection Value) (w : Worker)
      → Open q (record c { worker = w })
      → c.pending ≡ some q
      → Waits (suc k) w
      → Goes q k (worker_step items (record c { worker = w }))
  unfolding worker_step
  other_step items k c stopped o p h = let no = h.0 in ground arith
  other_step items k c waiting o p h =
      rw (wake, o.mailbox, p)
        (inl (
          record { mailbox = refl; pipe = o.pipe; newest = o.newest },
          inl (refl, omega (arith, h.1)),
        ))
  other_step items k c (taken q') o p h =
      unless_stale-other q' k (searching q') (record c { worker = taken q' }) o p
        (omega (arith, h.1)) (refl, omega (arith, h.1))
  other_step items k c (searching q') o p h =
      unless_stale-other q' k (assembled q' items) (record c { worker = searching q' }) o p
        (omega (arith, h.1)) (refl, omega (arith, h.1))
  other_step items k c (assembled q' page) o p h =
      unless_stale-other q' k (writing q' page) (record c { worker = assembled q' page }) o p
        (omega (arith, h.1)) (refl, omega (arith, h.1))
  other_step items k c (writing q' page) o p h =
      rw (write_page, o.pipe)
        (inl (
          record { mailbox = o.mailbox; pipe = refl; newest = o.newest },
          inr (refl, p, omega (arith, h.1)),
        ))

  move :
      (items : List ResultItem) (k : ℕ) (c : Connection Value)
      → Goes q (suc k) c
      → Goes q k (worker_step items c)
  move items k c (inr (b, a)) =
      let g = worker_step-Grows items c c.worker in
      inr (g.0 ∙ b, Grows-IsAnswered q.gen c (worker_step items c) g a)
  move items k c (inl (o, inl (h, l))) = own_step items q k c c.worker o h l
  move items k c (inl (o, inr (r, p, l))) = other_step items k c c.worker o p (r, l)

  -- What a calm message leaves as it is.
  record Keeps (a b : Connection Value) : Type 0 where
    latest : b.latest_gen ≡ a.latest_gen
    pending : b.pending ≡ a.pending
    closed : b.closed ≡ a.closed
    worker : b.worker ≡ a.worker
    grows : Grows a b

  same : (c : Connection Value) → Keeps c c
  same c = record {
    latest = refl;
    pending = refl;
    closed = refl;
    worker = refl;
    grows = (refl, λ x h. h);
  }

  reply-Keeps :
      (msg : Message Value) (a c : Connection Value)
      → Keeps a c
      → a.broken ≡ false
      → Keeps a (reply msg c)
  unfolding reply
  reply-Keeps msg a c k b =
      let holds : c.broken ≡ false = k.grows.0 ∙ b in
      rw holds (record {
        latest = k.latest;
        pending = k.pending;
        closed = k.closed;
        worker = k.worker;
        grows = (sym b, λ x h. In-front x c.sent _ (k.grows.1 x h));
      })

  paused : (b : Bool) (c : Connection Value) → Keeps c (set_paused b c)
  paused b c = record {
    latest = refl;
    pending = refl;
    closed = refl;
    worker = refl;
    grows = (refl, λ x h. h);
  }

  on_message-Keeps :
      (files ram : ℕ) (msg : Message Value) (c : Connection Value)
      → c.broken ≡ false
      → is_calm msg ≡ true
      → Keeps c (on_message files ram msg c)
  unfolding on_message on_session_state
  on_message-Keeps files ram (search_query id gen text scopes filters max_results) c b m =
      ground arith
  on_message-Keeps files ram (cancel gen) c b m = ground arith
  on_message-Keeps files ram (index_status_req id) c b m = reply-Keeps _ c c (same c) b
  on_message-Keeps files ram (session_state state) c b m = record {
    latest = refl;
    pending = refl;
    closed = refl;
    worker = refl;
    grows = (refl, λ x h. h);
  }
  on_message-Keeps files ram (pause_indexing id) c b m =
      reply-Keeps _ c (set_paused true c) (paused true c) b
  on_message-Keeps files ram (resume_indexing id) c b m =
      reply-Keeps _ c (set_paused false c) (paused false c) b
  on_message-Keeps files ram (content_search_query id gen query scopes max_results snippets) c b m =
      reply-Keeps _ c c (same c) b
  on_message-Keeps files ram (subscribe id topics) c b m = reply-Keeps _ c c (same c) b
  on_message-Keeps files ram (hello lo hi client pid) c b m = reply-Keeps _ c c (same c) b
  on_message-Keeps files ram (hello_ack proto version epoch) c b m = reply-Keeps _ c c (same c) b
  on_message-Keeps files ram (search_results gen seq final items) c b m =
      reply-Keeps _ c c (same c) b
  on_message-Keeps files ram (index_status id volumes) c b m = reply-Keeps _ c c (same c) b
  on_message-Keeps files ram (ack id) c b m = reply-Keeps _ c c (same c) b
  on_message-Keeps files ram (event topic payload) c b m = reply-Keeps _ c c (same c) b
  on_message-Keeps files ram (error id gen code message retryable) c b m =
      reply-Keeps _ c c (same c) b

  Keeps-Open : (a b : Connection Value) → Keeps a b → Open q a → Open q b
  Keeps-Open a b k o = record {
    mailbox = k.closed ∙ o.mailbox;
    pipe = k.grows.0 ∙ o.pipe;
    newest = let e = k.latest in let l = o.newest in omega arith;
  }

  Keeps-Goes : (n : ℕ) (a b : Connection Value) → Keeps a b → Goes q n a → Goes q n b
  Keeps-Goes n a b k (inr (p, h)) = inr (k.grows.0 ∙ p, Grows-IsAnswered q.gen a b k.grows h)
  Keeps-Goes n a b k (inl (o, inl h)) = inl (
    Keeps-Open a b k o,
    inl (subst (λ (w : Worker). HasQuery q w × steps_left w ≤ n) (sym k.worker) h),
  )
  Keeps-Goes n a b k (inl (o, inr (r, p, l))) = inl (
    Keeps-Open a b k o,
    inr (
      subst (λ (w : Worker). is_running w ≡ true) (sym k.worker) r,
      k.pending ∙ p,
      subst (λ (w : Worker). steps_left w + 5 ≤ n) (sym k.worker) l,
    ),
  )

  at_last : (c : Connection Value) → Goes q 0 c → IsAnswered q.gen c
  at_last c (inr (b, a)) = a
  at_last c (inl (o, inr (r, p, l))) = absurd (omega arith)
  at_last c (inl (o, inl (h, l))) = absurd (none_left c.worker h l)
    where
      none_left : (w : Worker) → HasQuery q w → steps_left w ≤ 0 → ⊥
      none_left waiting h l = h
      none_left stopped h l = h
      none_left (taken q') h l = omega arith
      none_left (searching q') h l = omega arith
      none_left (assembled q' page) h l = omega arith
      none_left (writing q' page) h l = omega arith

  pipe_of : (n : ℕ) (c : Connection Value) → Goes q n c → c.broken ≡ false
  pipe_of n c (inr (b, a)) = b
  pipe_of n c (inl (o, g)) = o.pipe

  Calm-Goes : (n : ℕ) (c d : Connection Value) → Calm n c d → Goes q n c → IsAnswered q.gen d
  Calm-Goes n c d rest g = at_last c g
  Calm-Goes (suc n) c d (moves items k) g = Calm-Goes n (worker_step items c) d k (move items n c g)
  Calm-Goes n c d (hears files ram msg s m k) g =
      let next = on_message files ram msg c in
      Calm-Goes n next d k
        (Keeps-Goes n c next (on_message-Keeps files ram msg c (pipe_of n c g) m) g)

  rejected : (n : ℕ) (c : Connection Value) → Open q c → Goes q n (reply (empty_final q.gen) c)
  unfolding reply
  rejected n c o =
      let p = o.pipe in
      rw p (inr (refl, inl (In-back (replied (empty_final q.gen)) c.sent _ (inl refl))))

  submitted :
      (n : ℕ) (c : Connection Value)
      → Open q c
      → is_running c.worker ≡ true
      → 9 ≤ n
      → Goes q n (submit q c)
  unfolding submit
  submitted n c o r l =
      let s = steps_left-le c.worker in
      inl (
        record { mailbox = o.mailbox; pipe = o.pipe; newest = o.newest },
        inr (r, refl, omega arith),
      )

  -- Whether it is rejected or submitted, it is on its way.
  on_search_query-Goes :
      (n : ℕ) (c : Connection Value)
      → Open q c
      → is_running c.worker ≡ true
      → 9 ≤ n
      → Goes q n (on_search_query q c)
  unfolding on_search_query fetch_max
  on_search_query-Goes n c o r l =
      if_cases (Goes q n) (ltb max_query_bytes (length q.text)) no _ (λ _. rejected n raised o')
        (λ _.
          if_cases (Goes q n) (filters_rejected q.filters) no _ (λ _. rejected n raised o')
            (λ _.
              if_cases (Goes q n) (is_empty_text q.text) no (submit q raised)
                (λ _. rejected n raised o') (λ _. submitted n raised o' r l)))
    where
      raised : Connection Value
      raised = fetch_max q.gen c

      no : Connection Value
      no = reply (empty_final q.gen) raised

      o' : Open q raised
      o' = record { mailbox = o.mailbox; pipe = o.pipe; newest = let l = o.newest in omega arith }

-- A query that is not older than the watermark, on a connection that is open, whose pipe holds and whose worker runs:
-- after nine steps of the worker, or more, it is answered, by the empty page where it is rejected and else by a page of the
-- worker, whatever the worker was doing and whatever the searches give, as long as neither a query nor a cancellation
-- follows and the pipe holds.
pub on_search_query-IsAnswered :
    {Value : Type 0} (q : Query) (n : ℕ) (c d : Connection Value)
    → c.closed ≡ false
    → c.broken ≡ false
    → is_running c.worker ≡ true
    → c.latest_gen ≤ q.gen
    → 9 ≤ n
    → Calm n (on_search_query q c) d
    → IsAnswered q.gen d
on_search_query-IsAnswered q n c d closed broken running newest few calm =
    Calm-Goes q n (on_search_query q c) d calm (
      on_search_query-Goes q n c (record { mailbox = closed; pipe = broken; newest = newest })
        running few)
