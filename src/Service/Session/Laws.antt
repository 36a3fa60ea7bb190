-- ===== src/Service/Session/Laws.antt =====
-- Generations: a page that the worker sends is of a generation that is not superseded, and the connection
-- thread sends no rows.
use yspot.Prelude.{
  append_assoc, append_nil, sym, ℕ, ◌<◌, ◌≡◌, refl, ap, ◌∙◌, Bool, true, false, List, [], ◌∷◌, ◌++◌,
  Option, none, some, ltb, arith, length, if◌then◌else◌,
}
use yspot.Index.Table.Valid.{All}
use yspot.Proto.Messages.{
  ResultItem, Message, hello, hello_ack, search_query, content_search_query, search_results, cancel,
  index_status_req, index_status, session_state, pause_indexing, resume_indexing, ack, subscribe,
  event, error,
}
use yspot.Service.Session.{
  Query, Worker, waiting, taken, searching, assembled, writing, stopped, Frame, replied, answered,
  Connection, hang_up, reply, submit, fetch_max, filters_rejected, on_search_query,
  on_session_state, past, on_message, withdraw, wake, unless_stale, write_page, worker_step, Step,
  reads, drops, breaks, works, ends, Steps, done, step, u64_max, max_query_bytes, set_paused,
  take_pending, is_empty_text,
}

abbrev pub WorkerPast : ℕ → Worker → Type 0
WorkerPast g (writing q items) = g < q.gen
WorkerPast g _ = Unit

-- A page among the connection thread's own messages has no rows.
abbrev pub HasNoRows : {Value : Type 0} → Message Value → Type 0
HasNoRows (search_results gen seq final items) = items ≡ []
HasNoRows _ = Unit

-- Split on a condition, with what it says.
pub if_cases :
    {A : Type 0} (P : A → Type 0) (b : Bool) (x y : A)
    → (b ≡ true → P x)
    → (b ≡ false → P y)
    → P (if b then x else y)
if_cases P true x y f g = f refl
if_cases P false x y f g = g refl

module _ {Value : Type 0} where
  -- A page of the worker, of a generation beyond `g`, or a message of the connection thread without rows.
  abbrev pub NewerThan : ℕ → Frame Value → Type 0
  NewerThan g (replied msg) = HasNoRows msg
  NewerThan g (answered gen items) = g < gen

  -- Generation `g` is superseded, and the worker is not past its last check for it.
  pub record IsPast (g : ℕ) (c : Connection Value) : Type 0 where
    pub raised : g < c.latest_gen
    pub bounded : g < u64_max
    pub checked : WorkerPast g c.worker

  -- A step leaves `g` superseded, and what it sends are newer pages of the worker and messages without rows.
  pub record Extends (g : ℕ) (a b : Connection Value) : Type 0 where
    pub past : IsPast g b
    pub more : List (Frame Value)
    pub appended : b.sent ≡ a.sent ++ more
    pub newer : All (NewerThan g) more

  module _ (g : ℕ) where
    silent : (a b : Connection Value) → IsPast g b → b.sent ≡ a.sent → Extends g a b
    silent a b p e = record {
      past = p;
      more = [];
      appended = e ∙ sym (append_nil a.sent);
      newer = tt;
    }

    reply-Extends :
        (msg : Message Value) (c : Connection Value)
        → IsPast g c
        → HasNoRows msg
        → Extends g c (reply msg c)
    unfolding reply hang_up
    reply-Extends msg c p h =
        if_cases (Extends g c) c.broken (hang_up c) (record c { sent = c.sent ++ replied msg ∷ [] })
          (λ _.
            silent c (hang_up c)
              (record { raised = p.bounded; bounded = p.bounded; checked = p.checked }) refl)
          (λ _. record {
            past = record { raised = p.raised; bounded = p.bounded; checked = p.checked };
            more = replied msg ∷ [];
            appended = refl;
            newer = (h, tt);
          })

    -- The steps that send nothing and do not move the worker: what they raise stays raised.
    IsPast-fetch_max : (gen : ℕ) (c : Connection Value) → IsPast g c → IsPast g (fetch_max gen c)
    unfolding fetch_max
    IsPast-fetch_max gen c p = record {
      raised = let l = p.raised in omega arith;
      bounded = p.bounded;
      checked = p.checked;
    }

    via : (a b c : Connection Value) → b.sent ≡ a.sent → Extends g b c → Extends g a c
    via a b c e x = record {
      past = x.past;
      more = x.more;
      newer = x.newer;
      appended = x.appended ∙ ap (λ l. l ++ x.more) e;
    }

    on_search_query-Extends :
        (q : Query) (c : Connection Value) → IsPast g c → Extends g c (on_search_query q c)
    unfolding on_search_query submit fetch_max
    on_search_query-Extends q c p =
        let raised = fetch_max q.gen c in
        let p' = IsPast-fetch_max q.gen c p in
        let no = reply (search_results q.gen 0 true []) raised in
        let refused =
          via c raised no refl (reply-Extends (search_results q.gen 0 true []) raised p' refl) in
        let handed = submit q raised in
        let kept =
          silent c handed (record { raised = p'.raised; bounded = p.bounded; checked = p.checked })
            refl in
        let unless_empty = if is_empty_text q.text then no else handed in
        let unless_filtered = if filters_rejected q.filters then no else unless_empty in
        if_cases (Extends g c) (ltb max_query_bytes (length q.text)) no unless_filtered
          (λ _. refused)
          (λ _.
            if_cases (Extends g c) (filters_rejected q.filters) no unless_empty (λ _. refused)
              (λ _.
                if_cases (Extends g c) (is_empty_text q.text) no handed (λ _. refused) (λ _. kept)))

    replies :
        (msg : Message Value) (c b : Connection Value)
        → IsPast g c
        → b.sent ≡ c.sent
        → IsPast g b
        → HasNoRows msg
        → Extends g c (reply msg b)
    replies msg c b p e p' h = via c b (reply msg b) e (reply-Extends msg b p' h)

    paused-Extends :
        (b : Bool) (msg : Message Value) (c : Connection Value)
        → IsPast g c
        → HasNoRows msg
        → Extends g c (reply msg (set_paused b c))
    paused-Extends b msg c p h =
        replies msg c (set_paused b c) p refl
          (record { raised = p.raised; bounded = p.bounded; checked = p.checked }) h

    on_message-Extends :
        (files ram : ℕ) (msg : Message Value) (c : Connection Value)
        → IsPast g c
        → Extends g c (on_message files ram msg c)
    unfolding on_message on_session_state
    on_message-Extends files ram (search_query id gen text scopes filters n) c p =
        on_search_query-Extends
          (record { gen = gen; text = text; filters = filters; max_results = n }) c p
    on_message-Extends files ram (cancel gen) c p =
        unfold fetch_max in silent c (fetch_max (past gen) c) (IsPast-fetch_max (past gen) c p) refl
    on_message-Extends files ram (index_status_req id) c p = reply-Extends _ c p tt
    on_message-Extends files ram (session_state state) c p =
        silent c _ (record { raised = p.raised; bounded = p.bounded; checked = p.checked }) refl
    on_message-Extends files ram (pause_indexing id) c p = paused-Extends true (ack id) c p tt
    on_message-Extends files ram (resume_indexing id) c p = paused-Extends false (ack id) c p tt
    on_message-Extends files ram (content_search_query id gen q s n b) c p = reply-Extends _ c p tt
    on_message-Extends files ram (subscribe id topics) c p = reply-Extends _ c p tt
    on_message-Extends files ram (hello a b client pid) c p = reply-Extends _ c p tt
    on_message-Extends files ram (hello_ack proto version epoch) c p = reply-Extends _ c p tt
    on_message-Extends files ram (search_results gen seq final items) c p = reply-Extends _ c p tt
    on_message-Extends files ram (index_status id volumes) c p = reply-Extends _ c p tt
    on_message-Extends files ram (ack id) c p = reply-Extends _ c p tt
    on_message-Extends files ram (event topic payload) c p = reply-Extends _ c p tt
    on_message-Extends files ram (error id gen code message retryable) c p = reply-Extends _ c p tt

    -- ---- the worker

    moved :
        (w : Worker) (c : Connection Value)
        → IsPast g c
        → WorkerPast g w
        → Extends g c (record c { worker = w })
    moved w c p k =
        silent c (record c { worker = w })
          (record { raised = p.raised; bounded = p.bounded; checked = k }) refl

    wake-Extends :
        (c : Connection Value) (o : Option Query)
        → IsPast g c
        → WorkerPast g c.worker
        → Extends g c (if c.closed then record c { worker = stopped } else take_pending o c)
    wake-Extends c none p k =
        if_cases (Extends g c) c.closed (record c { worker = stopped }) c
          (λ _. moved stopped c p tt) (λ _. silent c c p refl)
    wake-Extends c (some q) p k =
        let next = record c { worker = taken q; pending = none } in
        if_cases (Extends g c) c.closed (record c { worker = stopped }) next
          (λ _. moved stopped c p tt)
          (λ _.
            silent c next (record { raised = p.raised; bounded = p.bounded; checked = tt }) refl)

    unless_stale-Extends :
        (q : Query) (next : Worker) (c : Connection Value)
        → IsPast g c
        → (g < q.gen → WorkerPast g next)
        → Extends g c (unless_stale q next c)
    unfolding unless_stale
    unless_stale-Extends q next c p k =
        if_cases (Extends g c) (ltb q.gen c.latest_gen) (record c { worker = waiting })
          (record c { worker = next }) (λ _. moved waiting c p tt)
          (λ e. let l = p.raised in moved next c p (k (ground arith)))

    write_page-Extends :
        (q : Query) (items : List ResultItem) (c : Connection Value)
        → IsPast g c
        → g < q.gen
        → Extends g c (write_page q items c)
    unfolding write_page
    write_page-Extends q items c p l =
        if_cases (Extends g c) c.broken (record c { worker = waiting })
          (record c { sent = c.sent ++ answered q.gen items ∷ []; worker = waiting })
          (λ _. moved waiting c p tt)
          (λ _. record {
            past = record { raised = p.raised; bounded = p.bounded; checked = tt };
            more = answered q.gen items ∷ [];
            appended = refl;
            newer = (l, tt);
          })

    -- The step of the worker, which is at `w`.
    work_at-Extends :
        (items : List ResultItem) (c : Connection Value) (w : Worker)
        → IsPast g c
        → WorkerPast g w
        → Extends g c (elim w [
          | waiting ↦ wake c
          | taken q ↦ unless_stale q (searching q) c
          | searching q ↦ unless_stale q (assembled q items) c
          | assembled q page ↦ unless_stale q (writing q page) c
          | writing q page ↦ write_page q page c
          | stopped ↦ c
        ])
    work_at-Extends items c waiting p k = unfold wake in wake-Extends c c.pending p p.checked
    work_at-Extends items c (taken q) p k = unless_stale-Extends q (searching q) c p (λ _. tt)
    work_at-Extends items c (searching q) p k =
        unless_stale-Extends q (assembled q items) c p (λ _. tt)
    work_at-Extends items c (assembled q page) p k =
        unless_stale-Extends q (writing q page) c p (λ l. l)
    work_at-Extends items c (writing q page) p k = write_page-Extends q page c p k
    work_at-Extends items c stopped p k = silent c c p refl

    Step-Extends : (a b : Connection Value) → IsPast g a → Step a b → Extends g a b
    unfolding worker_step withdraw hang_up
    Step-Extends a b p (reads files ram msg s l) = on_message-Extends files ram msg a p
    Step-Extends a b p (drops s) =
        silent a (hang_up a)
          (record { raised = p.bounded; bounded = p.bounded; checked = p.checked }) refl
    Step-Extends a b p breaks =
        silent a (record a { broken = true })
          (record { raised = p.raised; bounded = p.bounded; checked = p.checked }) refl
    Step-Extends a b p (works items) = work_at-Extends items a a.worker p p.checked
    Step-Extends a b p (ends s t) =
        silent a (withdraw a)
          (record { raised = p.raised; bounded = p.bounded; checked = p.checked }) refl

    -- Once the watermark is beyond a generation that is not the largest, and the worker is not
    -- writing a page of that generation or an older one, every page that the worker sends from then
    -- on, whatever the interleaving, is of a newer generation, and what the connection thread sends
    -- has no rows.
    pub Steps-Extends : (a b : Connection Value) → IsPast g a → Steps a b → Extends g a b
    Steps-Extends a b p done = silent a a p refl
    Steps-Extends a c p (step {b = b} s rest) =
        let x = Step-Extends a b p s in
        let y = Steps-Extends b c x.past rest in
        record {
          past = y.past;
          more = x.more ++ y.more;
          appended =
              y.appended ∙ ap (λ l. l ++ y.more) x.appended ∙ append_assoc a.sent x.more y.more;
          newer = All-append x.more y.more x.newer y.newer;
        }
      where
        All-append :
            (xs ys : List (Frame Value))
            → All (NewerThan g) xs
            → All (NewerThan g) ys
            → All (NewerThan g) (xs ++ ys)
        All-append [] ys h k = k
        All-append (x ∷ xs) ys h k = (h.0, All-append xs ys h.1 k)
