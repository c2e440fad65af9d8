-- ===== src/Components/Videos/Video.antt =====
-- src/client/components/Video.tsx: the video of a stream, with its menu.
pub mod Toggling
use model_lib.Prelude.{
  ℕ, ◌+◌, String, Bool, true, false, not, Option, none, some, is_some, [], ◌∷◌, ◌++◌, ◌=?◌, ◌==◌,
  if◌then◌else◌,
}
use Prim.Native.String
use model_lib.Actions.{MediaStream, MinimizeTogglePayload}
use model_lib.Reducers.Streams.{StreamWithUrl}
use model_lib.Components.Html
use model_lib.Components.Html.{
  Handler, class, has, flag, on, Html, text, el, class_name, when, toggle_minimize, toggle_cover,
}
use model_lib.Components.Simple.{DropdownState, dropdown}
use model_lib.Components.Videos.{StreamProps, is_small}

-- handleMinimize: what is toggled
unfoldable pub handle_minimize : StreamProps → MinimizeTogglePayload
handle_minimize props = elim props.stream [
  | none ↦ record { user_id = props.user_id; stream_id = none }
  | some s ↦ record { user_id = props.user_id; stream_id = some s.stream.id }
]

-- The <video> element: `src_object` is none in a browser whose elements have no such property, and
-- `loads` counts the assignments to it or to `src`.
pub record VideoElement : Type 0 where
  pub src_object : Option (Option MediaStream)
  pub src : String
  pub object_fit : String
  pub loads : ℕ

-- a !== b, for a stream or null
abbrev pub differ : Option MediaStream → Option MediaStream → Bool
differ none none = false
differ none (some b) = true
differ (some a) none = true
differ (some a) (some b) = not (a.ref == b.ref)

abbrev pub media_stream_of : Option StreamWithUrl → Option MediaStream
media_stream_of none = none
media_stream_of (some s) = some s.stream

abbrev pub url_of : Option StreamWithUrl → Option String
url_of none = none
url_of (some s) = s.url

-- video.src !== url
abbrev pub src_differs : String → Option String → Bool
src_differs src none = true
src_differs src (some url) = not (src =? url)

abbrev pub or_empty : Option String → String
or_empty none = ""
or_empty (some url) = url

-- componentDidUpdate, where there is an element
unfoldable pub component_did_update : Option StreamWithUrl → VideoElement → VideoElement
component_did_update stream video = elim video.src_object [
  | some src_object ↦
      if differ src_object (media_stream_of stream)
      then record video { src_object = some (media_stream_of stream); loads = video.loads + 1 }
      else video
  | none ↦
      if src_differs video.src (url_of stream)
      then record video { src = or_empty (url_of stream); loads = video.loads + 1 }
      else video
]

-- handleToggleCover, where there is an element
unfoldable pub handle_toggle_cover : VideoElement → VideoElement
handle_toggle_cover video = record video {
  object_fit = if video.object_fit =? "" then "contain" else "";
}

-- render
unfoldable pub video_html : DropdownState → (nickname : String) → StreamProps → Html
unfolding handle_minimize
video_html menu nickname props =
    el "div"
      (class (
          ("video-container", true)
          ∷ ("minimized", is_small props.window_state)
          ∷ ("mirrored", props.mirrored)
          ∷ [])
        ∷ [])
      (when (is_some props.stream) (
          el "video"
            (has "id" (String.◌++◌ "video-" props.user_id)
              ∷ flag "autoPlay" true
              ∷ on "click" (Handler.play ∷ [])
              ∷ on "loadedmetadata" (Handler.play ∷ [])
              ∷ flag "playsInline" true
              ∷ flag "muted" props.muted
              ∷ [])
            [])
        ++ el "div" (class_name "video-footer" ∷ []) (
            el "span" (class_name "nickname" ∷ []) (text nickname ∷ [])
            ∷ dropdown menu "☰" (
                record {
                  class = "action-minimize";
                  handler = toggle_minimize (handle_minimize props);
                  label = "Toggle Minimize";
                }
                ∷ record {
                  class = "action-toggle-fit";
                  handler = toggle_cover;
                  label = "Toggle Fit";
                }
                ∷ [])
            ∷ [])
          ∷ [])
