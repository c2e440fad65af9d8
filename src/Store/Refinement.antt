-- ===== src/Store/Refinement.antt =====
-- The store as what is seen of it: each user's connection, media streams and name, and the tracks of
-- each stream (src/client/reducers/index.ts with peers.ts, streams.ts and nicknames.ts). The order of
-- the users and the URLs are forgotten.
use model_lib.Prelude.{
  String, ◌≡◌, refl, ap, ◌∙◌, Option, none, some, List, [], ◌∷◌, for_each, if◌then◌else◌, ◌=?◌,
  arith, Bool-cases, inl, inr, All,
}
use model_lib.Prelude.Dict.{Dict, get, get-put, get-without}
use model_lib.Lodash.{Lodash, IsPlainKey}
use model_lib.Actions.{Action, Async, Peer, RemoveStreamPayload, AddStreamPayload, me}
use model_lib.Page.{Page}
use model_lib.Reducers.Notifications.Entries.{notifications-tracks}
use model_lib.Reducers.Nicknames.{
  Nicknames, joined, nickname_of, set_nickname, set_nicknames, remove_nickname, nicknames,
}
use model_lib.Reducers.Peers.{
  PeersState, peers, handle_remove_stream, handle_media_stream, share_stream,
}
use model_lib.Reducers.Peers.Turning.{peers-tracks}
use model_lib.Reducers.Streams.Invariant.{HasPlainIds}
use model_lib.Reducers.Streams.Refinement.{streams-shown}
use model_lib.Reducers.Streams.Seen.{Shown, shown, act_shown}
use model_lib.Reducers.Streams.TrackLists.{Tracks, act_tracks, streams-tracks}
use model_lib.Store.{Env, App, dispatch}
use model_lib.Store.Dispatch.{
  page_noted, page_shared, dispatch-peers, dispatch-streams, dispatch-nicknames, dispatch-page,
}

abbrev pub Connections : Type 0
Connections = String → Option Peer

abbrev pub Names : Type 0
Names = String → Option (Option String)

pub record View : Type 0 where
  pub connection : Connections
  pub shown : Shown
  pub name : Names
  pub tracks : Tracks

abbrev pub view : App → View
view app = record {
  connection = get app.state.peers;
  shown = shown app.state.streams;
  name = get app.state.nicknames;
  tracks = app.page.tracks;
}

-- The connections after an action.
abbrev pub act_connection : Action → Connections → Connections
act_connection (Action.peer_add user_id peer) f = λ j. if user_id =? j then some peer else f j
act_connection (Action.peer_remove user_id) f = λ j. if user_id =? j then none else f j
act_connection Action.hang_up f = λ j. none
act_connection _ f = f

-- The local user alone keeps their name.
abbrev only_me : Names → Names
only_me f = λ j. if me =? j then some (joined (f me)) else none

-- A name of the server's list: that of the user's own id is the local user's.
abbrev name_entry : (own : String) → String × String → Names → Names
name_entry own e f =
    let k = if e.0 =? own then me else e.0 in λ j. if k =? j then some (some e.1) else f j

-- The names after an action.
abbrev pub act_name : (own : String) → Action → Names → Names
act_name own (Action.peer_remove user_id) f = λ j. if user_id =? j then none else f j
act_name own (Action.nickname_remove user_id) f =
    λ j. if user_id =? me then f j else if user_id =? j then none else f j
act_name own Action.hang_up f = only_me f
act_name own (Action.nicknames_set payload) f = for_each (name_entry own) payload (only_me f)
act_name own _ f = f

abbrev pub act_view : (own : String) → Action → View → View
act_view own a v = record {
  connection = act_connection a v.connection;
  shown = act_shown a v.tracks v.shown;
  name = act_name own a v.name;
  tracks = act_tracks a v.shown v.tracks;
}

-- The ids of users who leave are plain keys.
abbrev pub ArePlain : Action → Type 0
ArePlain (Action.nickname_remove user_id) = IsPlainKey user_id
ArePlain (Action.peer_remove user_id) = IsPlainKey user_id
ArePlain _ = Unit

plain_ids : (a : Action) → ArePlain a → HasPlainIds a
plain_ids (Action.nickname_remove user_id) h = h
plain_ids _ h = tt

module _ (lib : Lodash) where
  handle_remove_stream-state :
      (state : PeersState) (p : RemoveStreamPayload) (page : Page)
      → (handle_remove_stream lib state p page).0 ≡ state
  unfolding handle_remove_stream
  handle_remove_stream-state state p page = ground arith

  handle_media_stream-state :
      (state : PeersState) (a : Async AddStreamPayload) (page : Page)
      → (handle_media_stream lib state a page).0 ≡ state
  unfolding handle_media_stream share_stream
  handle_media_stream-state state a page = ground arith

  peers-connections :
      (state : PeersState) (a : Action) (page : Page)
      → ArePlain a
      → get (peers lib state a page).0 ≡ act_connection a (get state)
  unfolding peers get
  peers-connections state (Action.peer_add user_id peer) page plain =
      λ i j. get-put state user_id j peer i
  peers-connections state (Action.peer_remove user_id) page plain =
      ap get (lib.omit_plain Peer state user_id plain) ∙ (λ i j. get-without state user_id j i)
  peers-connections state Action.hang_up page plain = refl
  peers-connections state (Action.stream_remove p) page plain =
      ap get (handle_remove_stream-state state p page)
  peers-connections state (Action.media_stream a) page plain =
      ap get (handle_media_stream-state state a page)
  peers-connections state _ page plain = refl

  get-set_nickname_entry :
      (own : String) (e : String × String) (obj : Nicknames) (j : String)
      → get (set_nickname own e obj) j ≡ name_entry own e (get obj) j
  unfolding set_nickname
  get-set_nickname_entry own e obj j = elim (Bool-cases (e.0 =? own)) [
    | inl mine ↦ rw mine (get-put obj me j (some e.1))
    | inr other ↦ rw other (get-put obj e.0 j (some e.1))
  ]

  get-remove_nickname :
      (state : Nicknames) (user_id j : String)
      → get (remove_nickname state user_id) j
        ≡ (if user_id =? me then get state j else if user_id =? j then none else get state j)
  unfolding remove_nickname
  get-remove_nickname state user_id j = elim (Bool-cases (user_id =? me)) [
    | inl mine ↦ rw mine refl
    | inr other ↦ rw other (get-without state user_id j)
  ]

  name_entries :
      (own : String) (payload : Dict String) (obj : Nicknames)
      → get (for_each (set_nickname own) payload obj) ≡ for_each (name_entry own) payload (get obj)
  unfolding set_nickname
  name_entries own [] obj = refl
  name_entries own (e ∷ rest) obj =
      name_entries own rest (set_nickname own e obj)
      ∙ ap (for_each (name_entry own) rest) (λ i j. get-set_nickname_entry own e obj j i)

  nicknames-names :
      (own : String) (state : Nicknames) (a : Action)
      → ArePlain a
      → get (nicknames lib own state a) ≡ act_name own a (get state)
  unfolding nicknames remove_nickname set_nicknames get
  nicknames-names own state (Action.peer_remove user_id) plain =
      ap get (lib.omit_plain (Option String) state user_id plain)
      ∙ (λ i j. get-without state user_id j i)
  nicknames-names own state (Action.nickname_remove user_id) plain =
      λ i j. get-remove_nickname state user_id j i
  nicknames-names own state Action.hang_up plain = refl
  nicknames-names own state (Action.nicknames_set payload) plain =
      name_entries own payload ((me, nickname_of state me) ∷ [])
  nicknames-names own state _ plain = refl

module _ (env : Env) where
  shared-tracks : (a : Action) (app : App) → (page_shared env a app).tracks ≡ app.page.tracks
  shared-tracks a app =
      peers-tracks env.lodash app.state.peers a (page_noted env a app)
      ∙ notifications-tracks env.lodash app.state.notifications a app.page

  dispatch-view :
      (a : Action) (app : App)
      → ArePlain a
      → view (dispatch env a app) ≡ act_view env.user_id a (view app)
  dispatch-view a app plain =
      let connections =
        ap get (dispatch-peers env a app)
        ∙ peers-connections env.lodash app.state.peers a (page_noted env a app) plain in
      let streams' =
        ap shown (dispatch-streams env a app)
        ∙ streams-shown env.lodash app.state.streams a (page_shared env a app) (plain_ids a plain)
        ∙ ap (λ tracks. act_shown a tracks (shown app.state.streams)) (shared-tracks a app) in
      let names =
        ap get (dispatch-nicknames env a app)
        ∙ nicknames-names env.lodash env.user_id app.state.nicknames a plain in
      let tracks' =
        ap (λ (p : Page). p.tracks) (dispatch-page env a app)
        ∙ streams-tracks env.lodash app.state.streams a (page_shared env a app)
        ∙ ap (act_tracks a (shown app.state.streams)) (shared-tracks a app) in
      λ i. record {
        connection = connections i;
        shown = streams' i;
        name = names i;
        tracks = tracks' i;
      }

  -- Dispatches, one after the other, do to what is seen of the client what their actions say,
  -- whatever the order of the users in the state and whatever the browser gives for a URL: to
  -- the connections, to the media streams of each user in their order, to the names, and to the
  -- tracks of each stream. The ids of users who leave must be plain keys.
  pub dispatches-view :
      (actions : List Action) (app : App)
      → All ArePlain actions
      → view (for_each (dispatch env) actions app)
        ≡ for_each (act_view env.user_id) actions (view app)
  dispatches-view [] app plain = refl
  dispatches-view (a ∷ rest) app (p, ps) =
      dispatches-view rest (dispatch env a app) ps
      ∙ ap (for_each (act_view env.user_id) rest) (dispatch-view a app p)
