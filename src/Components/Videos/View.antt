-- ===== src/Components/Videos/View.antt =====
-- src/client/components/Videos.tsx: the two lists of videos. `menus` says of each video, by its key,
-- whether its menu is open.
use model_lib.Prelude.{String, List, [], ◌∷◌, map}
use model_lib.Lodash.{Lodash}
use model_lib.Reducers.Nicknames.{Nicknames, get_nickname}
use model_lib.Reducers.Streams.{StreamsState}
use model_lib.Reducers.WindowStates.{WindowStates}
use model_lib.Components.Html.{Html, el, class_name}
use model_lib.Components.Simple.{DropdownState}
use model_lib.Components.Videos.{StreamProps, Placed, get_streams}
use model_lib.Components.Videos.Video.{video_html}

unfoldable pub stream_video : (String → DropdownState) → Nicknames → StreamProps → Html
stream_video menus nicknames props =
    video_html (menus props.key) (get_nickname nicknames props.user_id) props

unfoldable pub placed_html : (String → DropdownState) → Nicknames → Placed → List Html
placed_html menus nicknames placed =
    el "div" (class_name "videos videos-toolbar" ∷ [])
      (map (stream_video menus nicknames) placed.minimized)
    ∷ el "div" (class_name "videos videos-grid" ∷ [])
        (map (stream_video menus nicknames) placed.maximized)
    ∷ []

-- render
unfoldable pub videos_html :
    Lodash → (String → DropdownState) → WindowStates → Nicknames → StreamsState → List Html
unfolding placed_html
videos_html lib menus window_states nicknames streams =
    placed_html menus nicknames (get_streams lib window_states nicknames streams)
