-- ===== src/Components/Videos.antt =====
-- src/client/components/Videos.tsx: the videos that are shown, and where.
pub mod Placing
pub mod Video
pub mod View
use model_lib.Prelude.{
  String, Bool, true, false, ◌&&◌, Option, none, some, List, [], ◌∷◌, ◌++◌, if◌then◌else◌, for_each,
  ◌=?◌,
}
use model_lib.Prelude.Dict.{get}
use model_lib.Actions
use model_lib.Actions.{StreamType, me}
use model_lib.Lodash.{Lodash}
use model_lib.Reducers.Nicknames.{Nicknames}
use model_lib.Reducers.Streams.{StreamWithUrl, UserStreams, StreamsState}
use model_lib.Reducers.WindowStates.{WindowState, minimized, WindowStates, get_stream_key}

-- A property that the source leaves out is false.
pub record StreamProps : Type 0 where
  pub key : String
  pub stream : Option StreamWithUrl
  pub user_id : String
  pub muted : Bool
  pub local_user : Bool
  pub mirrored : Bool
  pub window_state : Option WindowState

-- The two lists of getStreams.
pub record Placed : Type 0 where
  pub minimized : List StreamProps
  pub maximized : List StreamProps

abbrev pub is_small : Option WindowState → Bool
is_small none = false
is_small (some minimized) = true

unfoldable pub add_stream_props : StreamProps → Placed → Placed
add_stream_props props placed =
    if is_small props.window_state
    then record placed { minimized = placed.minimized ++ props ∷ [] }
    else record placed { maximized = placed.maximized ++ props ∷ [] }

abbrev pub is_camera : Option StreamType → Bool
is_camera (some StreamType.camera) = true
is_camera _ = false

-- The video of a user who has no stream, and that of a stream.
unfoldable pub empty_props : WindowStates → String → StreamProps
empty_props window_states user_id =
    let key = get_stream_key user_id none in
    record {
      key = key;
      stream = none;
      user_id = user_id;
      muted = false;
      local_user = user_id =? me;
      mirrored = false;
      window_state = get window_states key;
    }

unfoldable pub stream_props : WindowStates → String → StreamWithUrl → StreamProps
stream_props window_states user_id s =
    let key = get_stream_key user_id (some s.stream.id) in
    record {
      key = key;
      stream = some s;
      user_id = user_id;
      muted = user_id =? me;
      local_user = user_id =? me;
      mirrored = (user_id =? me) && is_camera s.type;
      window_state = get window_states key;
    }

abbrev pub add_user_streams : WindowStates → String → Option UserStreams → Placed → Placed
add_user_streams window_states user_id none placed =
    add_stream_props (empty_props window_states user_id) placed
add_user_streams window_states user_id (some u) placed =
    for_each (λ s. add_stream_props (stream_props window_states user_id s)) u.streams placed

unfoldable pub add_streams_by_user : WindowStates → StreamsState → String → Placed → Placed
add_streams_by_user window_states streams user_id placed =
    add_user_streams window_states user_id (get streams user_id) placed

-- getStreams
unfoldable pub get_streams : Lodash → WindowStates → Nicknames → StreamsState → Placed
unfolding add_streams_by_user
get_streams lib window_states nicknames streams =
    for_each (λ e. add_streams_by_user window_states streams e.0)
      (lib.entries (Option String) nicknames) (record { minimized = []; maximized = [] })
