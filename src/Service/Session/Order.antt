-- ===== src/Service/Session/Order.antt =====
-- The order of pages: in every state that a connection reaches, the pages that the worker sent have generations
-- that do not fall, none beyond the watermark, and the connection thread sent no rows.
pub mod Reached
use Prim.Native.Nat.{max, min}
use yspot.Prelude.{
  ℕ, zero, suc, ◌+◌, ◌≤◌, ◌<◌, ◌≡◌, refl, Bool, true, false, List, [], ◌∷◌, ◌++◌, Option, none,
  some, Bytes, ltb, arith, length, if◌then◌else◌,
}
use yspot.Index.Table.Valid.{All}
use yspot.Proto.Messages.{
  ResultItem, Message, hello, hello_ack, search_query, content_search_query, search_results, cancel,
  index_status_req, index_status, session_state, pause_indexing, resume_indexing, ack, subscribe,
  event, error,
}
use yspot.Service.State.{ServiceState}
use yspot.Service.Session.{
  Query, Worker, waiting, taken, searching, assembled, writing, stopped, Reader, Frame, replied,
  answered, Connection, hang_up, reply, submit, fetch_max, filters_rejected, on_search_query,
  on_session_state, past, on_message, withdraw, wake, unless_stale, write_page, worker_step, Step,
  reads, drops, breaks, works, ends, Steps, done, step, u64_max, max_query_bytes, gen_of, connected,
  set_paused, take_pending, is_empty_text,
}
use yspot.Service.Session.Laws.{HasNoRows}

abbrev pub PendingUpTo : ℕ → Option Query → Type 0
PendingUpTo g none = Unit
PendingUpTo g (some q) = q.gen ≤ g

pub PendingUpTo-le : (g h : ℕ) (o : Option Query) → g ≤ h → PendingUpTo g o → PendingUpTo h o
PendingUpTo-le g h none l k = tt
PendingUpTo-le g h (some q) l k = omega arith

module _ {Value : Type 0} where
  -- A page of the worker, of a generation up to `g`, or a message of the connection thread without rows.
  abbrev pub UpTo : ℕ → Frame Value → Type 0
  UpTo g (replied msg) = HasNoRows msg
  UpTo g (answered gen items) = gen ≤ g

  abbrev pub NotBefore : Frame Value → Frame Value → Type 0
  NotBefore (replied msg) y = Unit
  NotBefore (answered gen items) (replied msg) = Unit
  NotBefore (answered gen items) (answered later items') = gen ≤ later

  -- No page of the worker stands behind one of a later generation.
  abbrev pub InOrder : List (Frame Value) → Type 0
  InOrder [] = Unit
  InOrder (x ∷ xs) = All (NotBefore x) xs × InOrder xs

  -- What the worker writes is not before what was sent, and within the watermark.
  abbrev pub WriterIsNext : ℕ → List (Frame Value) → Worker → Type 0
  WriterIsNext g sent (writing q items) = All (UpTo q.gen) sent × (q.gen ≤ g)
  WriterIsNext g sent (taken q) = q.gen ≤ g
  WriterIsNext g sent (searching q) = q.gen ≤ g
  WriterIsNext g sent (assembled q items) = q.gen ≤ g
  WriterIsNext g sent waiting = Unit
  WriterIsNext g sent stopped = Unit

  pub record IsOrdered (c : Connection Value) : Type 0 where
    pub word : c.latest_gen ≤ u64_max
    pub pages : All (UpTo c.latest_gen) c.sent
    pub order : InOrder c.sent
    pub writer : WriterIsNext c.latest_gen c.sent c.worker
    pub queued : PendingUpTo c.latest_gen c.pending

  -- ---- lists of frames

  pub All-UpTo_le : (g h : ℕ) (xs : List (Frame Value)) → g ≤ h → All (UpTo g) xs → All (UpTo h) xs
  All-UpTo_le g h [] l a = tt
  All-UpTo_le g h (replied m ∷ xs) l a = (a.0, All-UpTo_le g h xs l a.1)
  All-UpTo_le g h (answered k items ∷ xs) l a =
      (let b = a.0 in omega arith, All-UpTo_le g h xs l a.1)

  pub All-append_one :
      (P : Frame Value → Type 0) (xs : List (Frame Value)) (y : Frame Value)
      → All P xs
      → P y
      → All P (xs ++ y ∷ [])
  All-append_one P [] y a b = (b, tt)
  All-append_one P (x ∷ xs) y a b = (a.0, All-append_one P xs y a.1 b)

  pub InOrder-append_page :
      (g : ℕ) (items : List ResultItem) (xs : List (Frame Value))
      → InOrder xs
      → All (UpTo g) xs
      → InOrder (xs ++ answered g items ∷ [])
  InOrder-append_page g items [] o a = (tt, tt)
  InOrder-append_page g items (replied m ∷ xs) o a = (
    All-append_one (NotBefore (replied m)) xs (answered g items) o.0 tt,
    InOrder-append_page g items xs o.1 a.1,
  )
  InOrder-append_page g items (answered k is ∷ xs) o a = (
    All-append_one (NotBefore (answered k is)) xs (answered g items) o.0 a.0,
    InOrder-append_page g items xs o.1 a.1,
  )

  pub InOrder-append_reply :
      (m : Message Value) (xs : List (Frame Value)) → InOrder xs → InOrder (xs ++ replied m ∷ [])
  InOrder-append_reply m [] o = (tt, tt)
  InOrder-append_reply m (replied k ∷ xs) o =
      (All-append_one (NotBefore (replied k)) xs (replied m) o.0 tt, InOrder-append_reply m xs o.1)
  InOrder-append_reply m (answered k is ∷ xs) o = (
    All-append_one (NotBefore (answered k is)) xs (replied m) o.0 tt,
    InOrder-append_reply m xs o.1,
  )

  pub WriterIsNext-le :
      (g h : ℕ) (xs : List (Frame Value)) (w : Worker)
      → g ≤ h
      → WriterIsNext g xs w
      → WriterIsNext h xs w
  WriterIsNext-le g h xs waiting l k = tt
  WriterIsNext-le g h xs (taken q) l k = omega arith
  WriterIsNext-le g h xs (searching q) l k = omega arith
  WriterIsNext-le g h xs (assembled q items) l k = omega arith
  WriterIsNext-le g h xs (writing q items) l k = (k.0, let b = k.1 in omega arith)
  WriterIsNext-le g h xs stopped l k = tt

  pub WriterIsNext-append_reply :
      (g : ℕ) (m : Message Value) (xs : List (Frame Value)) (w : Worker)
      → HasNoRows m
      → WriterIsNext g xs w
      → WriterIsNext g (xs ++ replied m ∷ []) w
  WriterIsNext-append_reply g m xs waiting h k = tt
  WriterIsNext-append_reply g m xs (taken q) h k = k
  WriterIsNext-append_reply g m xs (searching q) h k = k
  WriterIsNext-append_reply g m xs (assembled q items) h k = k
  WriterIsNext-append_reply g m xs (writing q items) h k =
      (All-append_one (UpTo q.gen) xs (replied m) k.0 h, k.1)
  WriterIsNext-append_reply g m xs stopped h k = tt
