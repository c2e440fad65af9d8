-- ===== src/Tests/Environment.antt =====
-- A concrete environment, with an encoding of the messages between peers for JSON, and a client in
-- a call.
use Prim.Native.Char.{code}
use Prim.Native.String.{[], ◌∷◌}
use model_lib.Page.{Listeners, Call, gives_track}
use model_lib.Prelude.{
  Bool, any, List, not, true, false, String, ◌≡◌, refl, ap, Option, none, some, [], ◌∷◌, ◌==◌,
  if◌then◌else◌,
}
use model_lib.Actions.{Peer, Track, MediaStream, PeerMessage, ReceivedMessage, received}
use model_lib.Store.{Env, App, in_turn, initial_state}
use model_lib.Tests.Data.{lodash, tally, page, two_streams}

-- Each character of a text after an "x", and what follows the text after a ".".
abbrev written : String → String → String
written [] rest = String.◌∷◌ "." rest
written (c ∷ s) rest = String.◌∷◌ "x" (c ∷ written s rest)

abbrev read : String → String × String
read [] = ("", "")
read (m ∷ []) = ("", "")
read (m ∷ c ∷ s) =
    let r = read s in if code m == b'.' then ("", String.◌∷◌ c s) else (String.◌∷◌ c r.0, r.1)

read-written : (s rest : String) → read (written s rest) ≡ (s, rest)
read-written [] [] = refl
read-written [] (c ∷ rest) = refl
read-written (c ∷ s) rest =
    ap (λ (r : String × String). (String.◌∷◌ c r.0, r.1)) (read-written s rest)

abbrev stringify : PeerMessage → String
stringify (PeerMessage.text payload) = String.◌∷◌ "t" payload
stringify (PeerMessage.file name size type data_url) = String.◌∷◌ "f" (written name data_url)

abbrev parse : String → Option ReceivedMessage
parse [] = none
parse (k ∷ s) =
    if code k == b't'
    then some (ReceivedMessage.other none s)
    else some (ReceivedMessage.file none (read s).0 (read s).1)

pub parse-stringify : (m : PeerMessage) → parse (stringify m) ≡ some (received m)
parse-stringify (PeerMessage.text payload) = refl
parse-stringify (PeerMessage.file name size type data_url) =
    ap (λ (r : String × String). some (ReceivedMessage.file none r.0 r.1))
      (read-written name data_url)

-- A connection can send once it has connected.
abbrev send_returns : Option Listeners → Bool
send_returns none = false
send_returns (some l) = not l.on_connect

abbrev send_before_connect : (l : Listeners) → l.on_connect ≡ true → send_returns (some l) ≡ false
send_before_connect l e = ap not e

-- A connection takes a track that it has not been given.
abbrev add_track_returns : List Call → Peer → Track → MediaStream → Bool
add_track_returns calls peer track stream = not (any (gives_track peer track stream) calls)

abbrev add_track_again :
    (calls : List Call) (peer : Peer) (track : Track) (stream : MediaStream)
    → any (gives_track peer track stream) calls ≡ true
    → add_track_returns calls peer track stream ≡ false
add_track_again calls peer track stream e = ap not e

abbrev pub env : Env
env = record {
  lodash = lodash;
  combine_reducers = in_turn;
  combine_in_turn = λ r s a p. refl;
  json = record { stringify = stringify; parse = parse; parse-stringify = parse-stringify };
  send_returns = send_returns;
  send_before_connect = send_before_connect;
  add_track_returns = add_track_returns;
  add_track_again = add_track_again;
  number_text = tally;
  user_id = "carol";
}

-- Carol has a connection with Alice, who has sent two streams.
abbrev pub in_call : App
in_call = record {
  state = record (initial_state none "Carol") { peers = ("alice", 3) ∷ []; streams = two_streams };
  page = page;
}

-- A connection with Bob has been made too.
abbrev pub bob_comes : App
bob_comes = record in_call {
  state = record in_call.state { peers = ("alice", 3) ∷ ("bob", 4) ∷ [] };
}
