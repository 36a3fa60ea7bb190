-- ===== src/Service/Session.antt =====
-- One connection of the service: crates/yspot-indexd/src/session.rs. Two threads share it, the connection
-- thread (`run`) and its search worker (`worker_loop`, `run_search`); each access of the
-- worker is a step of its own, and what the connection thread does with one frame, or at its end, is one
-- step. The hits of a search are what the index gives, an argument of the step. The worker that could not be
-- spawned, whose searches run inline, is not modelled.
pub mod Pages
pub mod Laws
pub mod Order
pub mod Answers
use Prim.Native.Nat.{◌-◌, max, min}
use yspot.Prelude.{
  ℕ, zero, suc, ◌+◌, ◌^◌, ◌≤◌, ◌≡◌, Bool, true, false, not, ◌||◌, List, [], ◌∷◌, ◌++◌, Option, none,
  some, Bytes, ltb, any, length, if◌then◌else◌,
}
use yspot.Proto.Messages.{
  Filters, ResultItem, SessionActivity, active, idle, VolumeStatus, Message, hello, hello_ack,
  search_query, content_search_query, search_results, cancel, index_status_req, index_status,
  session_state, pause_indexing, resume_indexing, ack, subscribe, event, error, proto_version,
  unsupported_version, unknown_message, scope_unsupported,
}
use yspot.Service.State.{ServiceState, set_session_active, volume_status}

abbrev pub max_query_bytes : ℕ
max_query_bytes = 1024

abbrev pub max_ext_filters : ℕ
max_ext_filters = 64

abbrev pub max_path_filter_bytes : ℕ
max_path_filter_bytes = 1024

abbrev pub u64_max : ℕ
u64_max = 2 ^ 64 - 1

pub record Query : Type 0 where
  pub gen : ℕ
  pub text : Bytes
  pub filters : Filters
  pub max_results : ℕ

abbrev longer : ℕ → Option Bytes → Bool
longer most none = false
longer most (some p) = ltb most (length p)

unfoldable pub filters_rejected : Filters → Bool
filters_rejected f =
    ltb max_ext_filters (length f.ext)
    || any (λ e. ltb max_query_bytes (length e)) f.ext
    || longer max_path_filter_bytes f.path_substr

abbrev pub is_empty_text : Bytes → Bool
is_empty_text [] = true
is_empty_text (_ ∷ _) = false

abbrev pub is_active : SessionActivity → Bool
is_active active = true
is_active idle = false

-- `gen.saturating_add(1)` of a `u64`
abbrev pub past : ℕ → ℕ
past gen = min (gen + 1) u64_max

-- Where the search worker is: it waits, has taken a query, searches, has assembled a page, or writes it
-- after the last check.
pub data Worker : Type 0 where
  waiting : Worker
  taken searching : Query → Worker
  assembled writing : Query → List ResultItem → Worker
  stopped : Worker

-- Where the connection thread is: it reads frames, joins the worker, or has ended.
pub data Reader : Type 0 where
  serving joining ended : Reader

module _ (Value : Type 0) where
  -- A frame that was sent, by the connection thread or as the page of a generation by the worker.
  pub data Frame : Type 0 where
    replied : Message Value → Frame
    answered : ℕ → List ResultItem → Frame

  pub record Connection : Type 0 where
    pub latest_gen : ℕ
    pub pending : Option Query
    pub closed : Bool
    pub worker : Worker
    pub reader : Reader
    pub voted : Bool
    pub service : ServiceState
    pub broken : Bool
    pub sent : List Frame

module _ {Value : Type 0} where
  -- `send`, and the return of `run` where it fails: the worker is cancelled and its mailbox closed.
  unfoldable pub hang_up : Connection Value → Connection Value
  hang_up c = record c { latest_gen = u64_max; closed = true; pending = none; reader = joining }

  unfoldable pub reply : Message Value → Connection Value → Connection Value
  unfolding hang_up
  reply msg c = if c.broken then hang_up c else record c { sent = c.sent ++ replied msg ∷ [] }

  abbrev pub empty_final : ℕ → Message Value
  empty_final gen = search_results gen 0 true []

  unfoldable pub submit : Query → Connection Value → Connection Value
  submit q c = record c { pending = some q }

  unfoldable pub fetch_max : ℕ → Connection Value → Connection Value
  fetch_max gen c = record c { latest_gen = max c.latest_gen gen }

  unfoldable pub on_search_query : Query → Connection Value → Connection Value
  unfolding fetch_max reply submit filters_rejected
  on_search_query q c =
      let raised = fetch_max q.gen c in
      if ltb max_query_bytes (length q.text)
      then reply (empty_final q.gen) raised
      else if filters_rejected q.filters
      then reply (empty_final q.gen) raised
      else if is_empty_text q.text
      then reply (empty_final q.gen) raised
      else submit q raised

  unfoldable pub on_session_state : Bool → Connection Value → Connection Value
  unfolding set_session_active
  on_session_state now c = record c {
    service = set_session_active c.voted now c.service;
    voted = now;
  }

  abbrev pub set_paused : Bool → Connection Value → Connection Value
  set_paused b c = record c { service = record c.service { is_paused = b } }

  -- The texts of errors, which nothing reads, are empty here.
  abbrev pub unexpected : Message Value
  unexpected = error none none unknown_message [] false

  -- One round of `run`'s loop with a frame that was read. `files` and `ram` are the index's own figures.
  unfoldable pub on_message : ℕ → ℕ → Message Value → Connection Value → Connection Value
  unfolding on_search_query on_session_state reply fetch_max volume_status
  on_message files ram (search_query id gen text scopes filters max_results) c =
      on_search_query
        (record { gen = gen; text = text; filters = filters; max_results = max_results }) c
  on_message files ram (cancel gen) c = fetch_max (past gen) c
  on_message files ram (index_status_req id) c =
      reply (index_status id (volume_status c.service files ram ∷ [])) c
  on_message files ram (session_state state) c = on_session_state (is_active state) c
  on_message files ram (pause_indexing id) c = reply (ack id) (set_paused true c)
  on_message files ram (resume_indexing id) c = reply (ack id) (set_paused false c)
  on_message files ram (content_search_query id gen query scopes max_results snippets) c =
      reply (error (some id) (some gen) scope_unsupported [] false) c
  on_message files ram (subscribe id topics) c = reply (ack id) c
  on_message files ram (hello a b client pid) c = reply unexpected c
  on_message files ram (hello_ack proto version epoch) c = reply unexpected c
  on_message files ram (search_results gen seq final items) c = reply unexpected c
  on_message files ram (index_status id volumes) c = reply unexpected c
  on_message files ram (ack id) c = reply unexpected c
  on_message files ram (event topic payload) c = reply unexpected c
  on_message files ram (error id gen code message retryable) c = reply unexpected c

  -- The end of `run`, once the worker has stopped: the vote is withdrawn.
  unfoldable pub withdraw : Connection Value → Connection Value
  unfolding set_session_active
  withdraw c = record c { service = set_session_active c.voted false c.service; reader = ended }

  -- The worker wakes: it stops if the mailbox is closed, else takes what is pending.
  abbrev pub take_pending : Option Query → Connection Value → Connection Value
  take_pending none c = c
  take_pending (some q) c = record c { worker = taken q; pending = none }

  unfoldable pub wake : Connection Value → Connection Value
  wake c = if c.closed then record c { worker = stopped } else take_pending c.pending c

  -- A check of the watermark: a query that is superseded is dropped, another goes on to `next`.
  unfoldable pub unless_stale : Query → Worker → Connection Value → Connection Value
  unless_stale q next c =
      if ltb q.gen c.latest_gen then record c { worker = waiting } else record c { worker = next }

  -- The write of a page; the worker ignores a failure.
  unfoldable pub write_page : Query → List ResultItem → Connection Value → Connection Value
  write_page q items c =
      if c.broken
      then record c { worker = waiting }
      else record c { sent = c.sent ++ answered q.gen items ∷ []; worker = waiting }

  -- One access of the worker. `items` is the page that a search gives.
  unfoldable pub worker_step : List ResultItem → Connection Value → Connection Value
  unfolding wake unless_stale write_page
  worker_step items c = elim c.worker [
    | waiting ↦ wake c
    | taken q ↦ unless_stale q (searching q) c
    | searching q ↦ unless_stale q (assembled q items) c
    | assembled q page ↦ unless_stale q (writing q page) c
    | writing q page ↦ write_page q page c
    | stopped ↦ c
  ]

  -- The generation of a message that raises the watermark; as all, it is a `u64`.
  abbrev pub gen_of : Message Value → ℕ
  gen_of (search_query id gen text scopes filters max_results) = gen
  gen_of (cancel gen) = gen
  gen_of _ = 0

  -- The steps of a connection: a frame is handled, the reading ends, the pipe breaks, the worker moves, or
  -- the thread ends after the worker.
  pub data Step : Connection Value → Connection Value → Type 0 where
    reads :
        {c : Connection Value} (files ram : ℕ) (msg : Message Value)
        → c.reader ≡ serving
        → gen_of msg ≤ u64_max
        → Step c (on_message files ram msg c)
    drops : {c : Connection Value} → c.reader ≡ serving → Step c (hang_up c)
    breaks : {c : Connection Value} → Step c (record c { broken = true })
    works : {c : Connection Value} (items : List ResultItem) → Step c (worker_step items c)
    ends : {c : Connection Value} → c.reader ≡ joining → c.worker ≡ stopped → Step c (withdraw c)

  pub data Steps : Connection Value → Connection Value → Type 0 where
    done : {c : Connection Value} → Steps c c
    step : {a b c : Connection Value} → Step a b → Steps b c → Steps a c

  -- The answer to the first frame, or to none, and whether the connection goes on.
  unfoldable pub handshake :
      Bytes → ServiceState → Bool → Option (Message Value) → List (Message Value) × Bool
  handshake version s sendable none = ([], false)
  handshake version s sendable (some (hello proto_min proto_max client pid)) =
      if ltb proto_version proto_min || ltb proto_max proto_version
      then (error none none unsupported_version [] false ∷ [], false)
      else (hello_ack proto_version version s.index_epoch ∷ [], sendable)
  handshake version s sendable (some _) = (unexpected ∷ [], false)

  -- After the handshake.
  unfoldable pub connected : ServiceState → Connection Value
  connected s = record {
    latest_gen = 0;
    pending = none;
    closed = false;
    worker = waiting;
    reader = serving;
    voted = false;
    service = s;
    broken = false;
    sent = [];
  }
