-- ===== src/Service/Session/Answers.antt =====
-- A query that is not superseded is answered: the worker comes to its page, whatever it was doing.
pub mod Ends
use Prim.Native.Nat.{max}
use yspot.Prelude.{
  ℕ, zero, suc, ◌+◌, ◌≤◌, ◌≡◌, refl, sym, ap, ◌∙◌, ◌⊎◌, inl, inr, Bool, true, false, List, [], ◌∷◌,
  ◌++◌, Option, none, some, ltb, if◌then◌else◌, length, arith,
}
use mathlib.Core.Path.{subst}
use yspot.Matching.Selector.Sorted.{In, In-front, In-back}
use yspot.Proto.Messages.{
  ResultItem, Message, hello, hello_ack, search_query, content_search_query, search_results, cancel,
  index_status_req, index_status, session_state, pause_indexing, resume_indexing, ack, subscribe,
  event, error,
}
use yspot.Service.Session.{
  Query, Worker, waiting, taken, searching, assembled, writing, stopped, Frame, replied, answered,
  Connection, Reader, serving, reply, hang_up, submit, fetch_max, filters_rejected, on_search_query,
  on_session_state, on_message, wake, take_pending, unless_stale, write_page, worker_step,
  empty_final, max_query_bytes, is_empty_text,
}
use yspot.Service.Session.Laws.{if_cases}

-- A message that neither asks for a search nor cancels one.
abbrev pub is_calm : {Value : Type 0} → Message Value → Bool
is_calm (search_query id gen text scopes filters max_results) = false
is_calm (cancel gen) = false
is_calm _ = true

-- The worker has the query.
abbrev pub HasQuery : Query → Worker → Type 0
HasQuery q waiting = ⊥
HasQuery q stopped = ⊥
HasQuery q (taken q') = q' ≡ q
HasQuery q (searching q') = q' ≡ q
HasQuery q (assembled q' page) = q' ≡ q
HasQuery q (writing q' page) = q' ≡ q

-- The steps until the worker waits.
abbrev pub steps_left : Worker → ℕ
steps_left waiting = 0
steps_left stopped = 0
steps_left (writing q page) = 1
steps_left (assembled q page) = 2
steps_left (searching q) = 3
steps_left (taken q) = 4

abbrev pub is_running : Worker → Bool
is_running stopped = false
is_running _ = true

module _ {Value : Type 0} where
  -- A run in which no other query comes, the pipe holds, and the worker takes `n` steps.
  pub data Calm : ℕ → Connection Value → Connection Value → Type 0 where
    rest : {c : Connection Value} → Calm 0 c c
    moves :
        {n : ℕ} {c d : Connection Value} (items : List ResultItem)
        → Calm n (worker_step items c) d
        → Calm (suc n) c d
    hears :
        {n : ℕ} {c d : Connection Value} (files ram : ℕ) (msg : Message Value)
        → c.reader ≡ serving
        → is_calm msg ≡ true
        → Calm n (on_message files ram msg c) d
        → Calm n c d

  -- The empty page of a query that is rejected, or a page that the worker wrote.
  abbrev pub IsAnswered : ℕ → Connection Value → Type 0
  IsAnswered gen c =
      In (replied (empty_final gen)) c.sent
      ⊎ ((items : List ResultItem) × In (answered gen items) c.sent)

  -- Nothing that was sent is taken back, and the pipe is as it was.
  abbrev pub Grows : Connection Value → Connection Value → Type 0
  Grows a b = (b.broken ≡ a.broken) × ((x : Frame Value) → In x a.sent → In x b.sent)

  pub Grows-IsAnswered :
      (gen : ℕ) (a b : Connection Value) → Grows a b → IsAnswered gen a → IsAnswered gen b
  Grows-IsAnswered gen a b g (inl h) = inl (g.1 _ h)
  Grows-IsAnswered gen a b g (inr (items, h)) = inr (items, g.1 _ h)

  unless_stale-Grows :
      (q : Query) (w : Worker) (c : Connection Value) → Grows c (unless_stale q w c)
  unfolding unless_stale
  unless_stale-Grows q w c =
      if_cases (Grows c) (ltb q.gen c.latest_gen) (record c { worker = waiting })
        (record c { worker = w }) (λ _. (refl, λ x h. h)) (λ _. (refl, λ x h. h))

  wake-Grows : (c : Connection Value) → Grows c (wake c)
  unfolding wake
  wake-Grows c =
      if_cases (Grows c) c.closed (record c { worker = stopped }) (take_pending c.pending c)
        (λ _. (refl, λ x h. h)) (λ _. taken_by c.pending)
    where
      taken_by : (p : Option Query) → Grows c (take_pending p c)
      taken_by none = (refl, λ x h. h)
      taken_by (some q) = (refl, λ x h. h)

  write_page-Grows :
      (q : Query) (page : List ResultItem) (c : Connection Value) → Grows c (write_page q page c)
  unfolding write_page
  write_page-Grows q page c =
      if_cases (Grows c) c.broken (record c { worker = waiting })
        (record c { sent = c.sent ++ answered q.gen page ∷ []; worker = waiting })
        (λ _. (refl, λ x h. h)) (λ _. (refl, λ x h. In-front x c.sent _ h))

  pub worker_step-Grows :
      (items : List ResultItem) (c : Connection Value) (w : Worker)
      → Grows c (worker_step items (record c { worker = w }))
  unfolding worker_step
  worker_step-Grows items c waiting = wake-Grows (record c { worker = waiting })
  worker_step-Grows items c (taken q) =
      unless_stale-Grows q (searching q) (record c { worker = taken q })
  worker_step-Grows items c (searching q) =
      unless_stale-Grows q (assembled q items) (record c { worker = searching q })
  worker_step-Grows items c (assembled q page) =
      unless_stale-Grows q (writing q page) (record c { worker = assembled q page })
  worker_step-Grows items c (writing q page) =
      write_page-Grows q page (record c { worker = writing q page })
  worker_step-Grows items c stopped = (refl, λ x h. h)

  -- What else must hold for the worker to come to the page of `q`.
  pub record Open (q : Query) (c : Connection Value) : Type 0 where
    pub mailbox : c.closed ≡ false
    pub pipe : c.broken ≡ false
    pub newest : c.latest_gen ≤ q.gen

  -- In at most `k` steps of the worker the query is answered: the worker has it, or comes to it next.
  abbrev pub Comes : Query → ℕ → Connection Value → Type 0
  Comes q k c =
      Open q c
      × ((HasQuery q c.worker × steps_left c.worker ≤ k)
          ⊎ ((is_running c.worker ≡ true) × (c.pending ≡ some q) × (steps_left c.worker + 5 ≤ k)))

  abbrev pub Goes : Query → ℕ → Connection Value → Type 0
  Goes q k c = Comes q k c ⊎ ((c.broken ≡ false) × IsAnswered q.gen c)

  unless_stale-own :
      (q q' : Query) (k : ℕ) (w : Worker) (c : Connection Value)
      → Open q c
      → q' ≡ q
      → HasQuery q w
      → steps_left w ≤ k
      → Goes q k (unless_stale q' w c)
  unfolding unless_stale
  unless_stale-own q q' k w c o e h l =
      if_cases (Goes q k) (ltb q'.gen c.latest_gen) (record c { worker = waiting })
        (record c { worker = w })
        (λ b.
          let n = o.newest in
          let g : q'.gen ≡ q.gen = ap (λ (x : Query). x.gen) e in absurd (ground arith))
        (λ _. inl (record { mailbox = o.mailbox; pipe = o.pipe; newest = o.newest }, inl (h, l)))

  pub own_step :
      (items : List ResultItem) (q : Query) (k : ℕ) (c : Connection Value) (w : Worker)
      → Open q (record c { worker = w })
      → HasQuery q w
      → steps_left w ≤ suc k
      → Goes q k (worker_step items (record c { worker = w }))
  unfolding worker_step
  own_step items q k c waiting o h l = absurd h
  own_step items q k c stopped o h l = absurd h
  own_step items q k c (taken q') o h l =
      unless_stale-own q q' k (searching q') (record c { worker = taken q' }) o h h (omega arith)
  own_step items q k c (searching q') o h l =
      unless_stale-own q q' k (assembled q' items) (record c { worker = searching q' }) o h h
        (omega arith)
  own_step items q k c (assembled q' page) o h l =
      unless_stale-own q q' k (writing q' page) (record c { worker = assembled q' page }) o h h
        (omega arith)
  own_step items q k c (writing q' page) o h l =
      rw (write_page, o.pipe)
        (inr (
          refl,
          inr (
            page,
            In-back (answered q.gen page) c.sent _
                (inl (ap (λ (x : Query). answered x.gen page) (sym h))),
          ),
        ))
