-- ===== src/SocketClient.antt =====
-- src/client/ws/index.ts: the connection to the server, which is opened again when it closes. The
-- page's WebSockets are numbered in the order in which they are made; the emitter is a record of what
-- it has emitted.
pub mod Modes
pub mod Closing
pub mod Connection
use model_lib.Prelude.{
  ℕ, suc, ◌+◌, String, ◌≡◌, ◌≢◌, Bool, true, false, not, Option, none, some, List, [], ◌∷◌, ◌++◌,
  ◌==◌, if◌then◌else◌, any, filter,
}
use model_lib.Page.{update}

-- The state of a WebSocket: CONNECTING, OPEN, CLOSING, CLOSED.
pub data Phase : Type 0 where
  opening opened closing closed : Phase

-- A call of `emitter.emit`: by wsHandleOpen, by wsHandleClose, and by wsHandleMessage. The listeners
-- go by the event's name, so a message of the type "connect" is the event `connect` to them.
pub data Emitted : Type 0 where
  connect disconnect : Emitted
  message : (type payload : String) → Emitted

abbrev pub event_name : Emitted → String
event_name connect = "connect"
event_name disconnect = "disconnect"
event_name (message type payload) = type

abbrev pub event_payload : Emitted → String
event_payload connect = ""
event_payload disconnect = ""
event_payload (message type payload) = payload

-- SocketClient, with its WebSockets, the intervals that are running and the calls of `connect` that
-- are to come. A timeout of 0 is none.
pub record SocketClient : Type 0 where
  pub connected : Bool
  pub reconnect_timeout : ℕ
  pub ping_interval_timeout : ℕ
  pub ping_interval : Option ℕ
  pub emitted : List Emitted
  pub phases : ℕ → Phase
  pub sockets_made : ℕ
  -- the last of them, `ws`
  pub socket : ℕ
  pub intervals : List ℕ
  pub intervals_made : ℕ
  pub reconnects : ℕ
  -- what `send` has passed on, each with its WebSocket
  pub sent : List (ℕ × String)

-- new WebSocket(this.url)
unfoldable pub connect_socket : SocketClient → SocketClient
connect_socket c = record c {
  phases = update c.phases c.sockets_made opening;
  socket = c.sockets_made;
  sockets_made = suc c.sockets_made;
}

-- The constructor; the timeouts are those of the class unless they are changed.
unfoldable pub make_client : (reconnect_timeout ping_interval_timeout : ℕ) → SocketClient
unfolding connect_socket
make_client reconnect_timeout ping_interval_timeout = connect_socket (record {
  connected = false;
  reconnect_timeout = reconnect_timeout;
  ping_interval_timeout = ping_interval_timeout;
  ping_interval = none;
  emitted = [];
  phases = λ k. closed;
  sockets_made = 0;
  socket = 0;
  intervals = [];
  intervals_made = 1;
  reconnects = 0;
  sent = [];
})

abbrev pub emit_event : Emitted → SocketClient → SocketClient
emit_event e c = record c { emitted = c.emitted ++ e ∷ [] }

abbrev pub remaining : Option ℕ → List ℕ → List ℕ
remaining none intervals = intervals
remaining (some i) intervals = filter (λ j. not (j == i)) intervals

-- The second half of wsHandleClose: no more pings, and a new attempt later on.
unfoldable pub finish_close : SocketClient → SocketClient
finish_close c =
    let quiet = record c { intervals = remaining c.ping_interval c.intervals } in
    if quiet.reconnect_timeout == 0
    then quiet
    else record quiet { reconnects = suc quiet.reconnects }

-- wsHandleClose
unfoldable pub handle_close : SocketClient → SocketClient
unfolding finish_close
handle_close c =
    finish_close (if c.connected then record (emit_event disconnect c) { connected = false } else c)

-- wsHandleOpen
unfoldable pub handle_open : SocketClient → SocketClient
handle_open c =
    let told = emit_event connect (record c { connected = true }) in
    if told.ping_interval_timeout == 0 then told else record told {
      ping_interval = some told.intervals_made;
      intervals = told.intervals ++ told.intervals_made ∷ [];
      intervals_made = suc told.intervals_made;
    }

-- How `send` of a WebSocket ends: it throws while the socket is opening, and drops what it is given
-- once the socket has begun to close.
pub data Sending : Type 0 where
  passed_on dropped threw : SocketClient → Sending

-- emit, of a message whose JSON is `text`
unfoldable pub emit : String → SocketClient → Sending
emit text c = elim (c.phases c.socket) [
  | opening ↦ threw c
  | opened ↦ passed_on (record c { sent = c.sent ++ (c.socket, text) ∷ [] })
  | closing ↦ dropped c
  | closed ↦ dropped c
]

-- An interval ignores what its function throws.
abbrev pub after_sending : Sending → SocketClient
after_sending (passed_on c) = c
after_sending (dropped c) = c
after_sending (threw c) = c

-- What the browser can bring about: events of a WebSocket, an interval, the end of a timeout.
pub data Happening : Type 0 where
  open_socket : ℕ → Happening
  begin_closing : ℕ → Happening
  close_socket : ℕ → Happening
  receive : ℕ → (type payload : String) → Happening
  ping : ℕ → Happening
  reconnect : Happening

-- The possible happenings, where `ping_text` is the JSON of a ping, with what the client becomes.
pub data Step (ping_text : String) : SocketClient → Happening → SocketClient → Type 0 where
  opening_ends :
      (c : SocketClient) (k : ℕ)
      → c.phases k ≡ opening
      → Step ping_text c
          (open_socket k)
          (handle_open (record c { phases = update c.phases k opened }))
  closing_begins :
      (c : SocketClient) (k : ℕ)
      → c.phases k ≡ opened
      → Step ping_text c (begin_closing k) (record c { phases = update c.phases k closing })
  closing_ends :
      (c : SocketClient) (k : ℕ)
      → c.phases k ≢ closed
      → Step ping_text c
          (close_socket k)
          (handle_close (record c { phases = update c.phases k closed }))
  receiving :
      (c : SocketClient) (k : ℕ) (type payload : String)
      → c.phases k ≡ opened
      → Step ping_text c (receive k type payload) (emit_event (message type payload) c)
  pinging :
      (c : SocketClient) (i : ℕ)
      → any (λ j. j == i) c.intervals ≡ true
      → Step ping_text c (ping i) (after_sending (emit ping_text c))
  reconnecting :
      (c : SocketClient) (n : ℕ)
      → c.reconnects ≡ suc n
      → Step ping_text c reconnect (connect_socket (record c { reconnects = n }))

-- The clients that there can be.
pub data Reachable (ping_text : String) : SocketClient → Type 0 where
  made :
      (reconnect_timeout ping_interval_timeout : ℕ)
      → Reachable ping_text (make_client reconnect_timeout ping_interval_timeout)
  after :
      (c c' : SocketClient) (h : Happening)
      → Reachable ping_text c
      → Step ping_text c h c'
      → Reachable ping_text c'
