-- ===== src/Service/Session/Order/Reached.antt =====
-- The order of pages is kept by every step of a connection.
use Prim.Native.Nat.{max}
use yspot.Prelude.{
  ℕ, ◌≤◌, ◌≡◌, refl, true, false, List, [], ◌∷◌, ◌++◌, Option, none, some, ltb, arith, length,
  if◌then◌else◌,
}
use yspot.Proto.Messages.{
  ResultItem, Message, hello, hello_ack, search_query, content_search_query, search_results, cancel,
  index_status_req, index_status, session_state, pause_indexing, resume_indexing, ack, subscribe,
  event, error,
}
use yspot.Service.State.{ServiceState}
use yspot.Service.Session.{
  Query, Worker, waiting, taken, searching, assembled, writing, stopped, replied, answered,
  Connection, hang_up, reply, submit, fetch_max, filters_rejected, on_search_query,
  on_session_state, past, on_message, withdraw, wake, unless_stale, write_page, worker_step, Step,
  reads, drops, breaks, works, ends, Steps, done, step, u64_max, max_query_bytes, gen_of, connected,
  set_paused, take_pending, is_empty_text,
}
use yspot.Service.Session.Laws.{if_cases, HasNoRows}
use yspot.Service.Session.Order.{
  PendingUpTo, PendingUpTo-le, UpTo, WriterIsNext, IsOrdered, All-UpTo_le, All-append_one,
  InOrder-append_page, InOrder-append_reply, WriterIsNext-le, WriterIsNext-append_reply,
}

module _ {Value : Type 0} where
  hang_up-IsOrdered : (c : Connection Value) → IsOrdered c → IsOrdered (hang_up c)
  unfolding hang_up
  hang_up-IsOrdered c o = record {
    word = omega arith;
    pages = All-UpTo_le c.latest_gen u64_max c.sent o.word o.pages;
    order = o.order;
    writer = WriterIsNext-le c.latest_gen u64_max c.sent c.worker o.word o.writer;
    queued = tt;
  }

  reply-IsOrdered :
      (m : Message Value) (c : Connection Value) → HasNoRows m → IsOrdered c → IsOrdered (reply m c)
  unfolding reply
  reply-IsOrdered m c h o =
      if_cases IsOrdered c.broken (hang_up c) (record c { sent = c.sent ++ replied m ∷ [] })
        (λ _. hang_up-IsOrdered c o)
        (λ _. record {
          word = o.word;
          pages = All-append_one (UpTo c.latest_gen) c.sent (replied m) o.pages h;
          order = InOrder-append_reply m c.sent o.order;
          writer = WriterIsNext-append_reply c.latest_gen m c.sent c.worker h o.writer;
          queued = o.queued;
        })

  fetch_max-IsOrdered :
      (gen : ℕ) (c : Connection Value) → gen ≤ u64_max → IsOrdered c → IsOrdered (fetch_max gen c)
  unfolding fetch_max
  fetch_max-IsOrdered gen c l o =
      let up : c.latest_gen ≤ max c.latest_gen gen = omega arith in
      record {
        word = let w = o.word in omega arith;
        pages = All-UpTo_le c.latest_gen (max c.latest_gen gen) c.sent up o.pages;
        order = o.order;
        writer = WriterIsNext-le c.latest_gen (max c.latest_gen gen) c.sent c.worker up o.writer;
        queued = PendingUpTo-le c.latest_gen (max c.latest_gen gen) c.pending up o.queued;
      }

  keeps :
      (c b : Connection Value)
      → IsOrdered c
      → b.latest_gen ≡ c.latest_gen
      → b.sent ≡ c.sent
      → WriterIsNext c.latest_gen c.sent b.worker
      → PendingUpTo c.latest_gen b.pending
      → IsOrdered b
  keeps c b o g s w q = record {
    word = rw g o.word;
    pages = rw (g, s) o.pages;
    order = rw s o.order;
    writer = rw (g, s) w;
    queued = rw g q;
  }

  on_search_query-IsOrdered :
      (q : Query) (c : Connection Value)
      → q.gen ≤ u64_max
      → IsOrdered c
      → IsOrdered (on_search_query q c)
  unfolding on_search_query
  on_search_query-IsOrdered q c l o =
      let raised = fetch_max q.gen c in
      let p = fetch_max-IsOrdered q.gen c l o in
      let no = reply (search_results q.gen 0 true []) raised in
      let refused = reply-IsOrdered (search_results q.gen 0 true []) raised refl p in
      let handed = submit q raised in
      let kept : IsOrdered handed =
        unfold submit in
        (keeps raised handed p refl refl p.writer (unfold fetch_max in omega arith)) in
      let unless_empty = if is_empty_text q.text then no else handed in
      let unless_filtered = if filters_rejected q.filters then no else unless_empty in
      if_cases IsOrdered (ltb max_query_bytes (length q.text)) no unless_filtered (λ _. refused)
        (λ _.
          if_cases IsOrdered (filters_rejected q.filters) no unless_empty (λ _. refused)
            (λ _. if_cases IsOrdered (is_empty_text q.text) no handed (λ _. refused) (λ _. kept)))

  on_message-IsOrdered :
      (files ram : ℕ) (msg : Message Value) (c : Connection Value)
      → gen_of msg ≤ u64_max
      → IsOrdered c
      → IsOrdered (on_message files ram msg c)
  unfolding on_message on_session_state
  on_message-IsOrdered files ram (search_query id gen text scopes filters n) c l o =
      on_search_query-IsOrdered
        (record { gen = gen; text = text; filters = filters; max_results = n }) c l o
  on_message-IsOrdered files ram (cancel gen) c l o =
      fetch_max-IsOrdered (past gen) c (omega arith) o
  on_message-IsOrdered files ram (index_status_req id) c l o = reply-IsOrdered _ c tt o
  on_message-IsOrdered files ram (session_state state) c l o =
      keeps c _ o refl refl o.writer o.queued
  on_message-IsOrdered files ram (pause_indexing id) c l o =
      reply-IsOrdered (ack id) (set_paused true c) tt
        (keeps c (set_paused true c) o refl refl o.writer o.queued)
  on_message-IsOrdered files ram (resume_indexing id) c l o =
      reply-IsOrdered (ack id) (set_paused false c) tt
        (keeps c (set_paused false c) o refl refl o.writer o.queued)
  on_message-IsOrdered files ram (content_search_query id gen q s n b) c l o =
      reply-IsOrdered _ c tt o
  on_message-IsOrdered files ram (subscribe id topics) c l o = reply-IsOrdered _ c tt o
  on_message-IsOrdered files ram (hello a b client pid) c l o = reply-IsOrdered _ c tt o
  on_message-IsOrdered files ram (hello_ack proto version epoch) c l o = reply-IsOrdered _ c tt o
  on_message-IsOrdered files ram (search_results gen seq final items) c l o =
      reply-IsOrdered _ c tt o
  on_message-IsOrdered files ram (index_status id volumes) c l o = reply-IsOrdered _ c tt o
  on_message-IsOrdered files ram (ack id) c l o = reply-IsOrdered _ c tt o
  on_message-IsOrdered files ram (event topic payload) c l o = reply-IsOrdered _ c tt o
  on_message-IsOrdered files ram (error id gen code message retryable) c l o =
      reply-IsOrdered _ c tt o

  moved :
      (w : Worker) (c : Connection Value)
      → IsOrdered c
      → WriterIsNext c.latest_gen c.sent w
      → IsOrdered (record c { worker = w })
  moved w c o k = keeps c (record c { worker = w }) o refl refl k o.queued

  wake-IsOrdered :
      (c : Connection Value) (o : Option Query)
      → IsOrdered c
      → PendingUpTo c.latest_gen o
      → IsOrdered (if c.closed then record c { worker = stopped } else take_pending o c)
  wake-IsOrdered c none o k =
      if_cases IsOrdered c.closed (record c { worker = stopped }) c (λ _. moved stopped c o tt)
        (λ _. o)
  wake-IsOrdered c (some q) o k =
      let next = record c { worker = taken q; pending = none } in
      if_cases IsOrdered c.closed (record c { worker = stopped }) next (λ _. moved stopped c o tt)
        (λ _. keeps c next o refl refl k tt)

  unless_stale-IsOrdered :
      (q : Query) (next : Worker) (c : Connection Value)
      → IsOrdered c
      → (c.latest_gen ≤ q.gen → WriterIsNext c.latest_gen c.sent next)
      → IsOrdered (unless_stale q next c)
  unfolding unless_stale
  unless_stale-IsOrdered q next c o k =
      if_cases IsOrdered (ltb q.gen c.latest_gen) (record c { worker = waiting })
        (record c { worker = next }) (λ _. moved waiting c o tt)
        (λ e. moved next c o (k (ground arith)))

  work_at-IsOrdered :
      (items : List ResultItem) (c : Connection Value) (w : Worker)
      → IsOrdered c
      → WriterIsNext c.latest_gen c.sent w
      → IsOrdered (elim w [
        | waiting ↦ wake c
        | taken q ↦ unless_stale q (searching q) c
        | searching q ↦ unless_stale q (assembled q items) c
        | assembled q page ↦ unless_stale q (writing q page) c
        | writing q page ↦ write_page q page c
        | stopped ↦ c
      ])
  unfolding write_page wake
  work_at-IsOrdered items c waiting o k = wake-IsOrdered c c.pending o o.queued
  work_at-IsOrdered items c (taken q) o k = unless_stale-IsOrdered q (searching q) c o (λ _. k)
  work_at-IsOrdered items c (searching q) o k =
      unless_stale-IsOrdered q (assembled q items) c o (λ _. k)
  work_at-IsOrdered items c (assembled q page) o k =
      unless_stale-IsOrdered q (writing q page) c o
        (λ l. (All-UpTo_le c.latest_gen q.gen c.sent l o.pages, k))
  work_at-IsOrdered items c (writing q page) o k =
      if_cases IsOrdered c.broken (record c { worker = waiting })
        (record c { sent = c.sent ++ answered q.gen page ∷ []; worker = waiting })
        (λ _. moved waiting c o tt)
        (λ _. record {
          word = o.word;
          pages = All-append_one (UpTo c.latest_gen) c.sent (answered q.gen page) o.pages k.1;
          order = InOrder-append_page q.gen page c.sent o.order k.0;
          writer = tt;
          queued = o.queued;
        })
  work_at-IsOrdered items c stopped o k = o

  Step-IsOrdered : (a b : Connection Value) → IsOrdered a → Step a b → IsOrdered b
  unfolding worker_step withdraw
  Step-IsOrdered a b o (reads files ram msg s l) = on_message-IsOrdered files ram msg a l o
  Step-IsOrdered a b o (drops s) = hang_up-IsOrdered a o
  Step-IsOrdered a b o breaks = keeps a (record a { broken = true }) o refl refl o.writer o.queued
  Step-IsOrdered a b o (works items) = work_at-IsOrdered items a a.worker o o.writer
  Step-IsOrdered a b o (ends s t) = keeps a (withdraw a) o refl refl o.writer o.queued

  Steps-IsOrdered : (a b : Connection Value) → IsOrdered a → Steps a b → IsOrdered b
  Steps-IsOrdered a b o done = o
  Steps-IsOrdered a c o (step {b = b} s rest) = Steps-IsOrdered b c (Step-IsOrdered a b o s) rest

  -- In every state that a connection reaches from its start, the pages that the worker sent stand in the
  -- order of their generations, none beyond the watermark, what the worker holds and what is pending is
  -- within it, and what the connection thread sent has no rows.
  pub connected-IsOrdered :
      (s : ServiceState) (b : Connection Value) → Steps (connected s) b → IsOrdered b
  unfolding connected
  connected-IsOrdered s b rest =
      Steps-IsOrdered _ b
        (record { word = omega arith; pages = tt; order = tt; writer = tt; queued = tt }) rest
