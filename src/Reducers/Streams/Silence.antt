-- ===== src/Reducers/Streams/Silence.antt =====
-- Hanging up and a user's leaving stop the tracks and take their handlers off (stopAllTracks in
-- src/client/reducers/streams.ts).
use model_lib.Prelude.{
  ℕ, String, ◌≡◌, refl, true, none, some, List, [], arith, All, for_each, for_each_keeps,
  for_each-All, All-map, subst,
}
use model_lib.Prelude.Dict.{get, get-without_self}
use model_lib.Actions.{Action, Track}
use model_lib.Page.{Page, get_tracks}
use model_lib.Lodash.{Lodash}
use model_lib.Reducers.Streams.{
  StreamWithUrl, UserStreams, StreamsState, silence, silence_stream, stop_all_tracks, stop_entry,
  remove_user_streams, streams,
}

-- The track has been stopped, and no handler of it is left that could dispatch an action.
pub record IsSilent (page : Page) (track : Track) : Type 0 where
  pub ended : page.ended track ≡ true
  pub unheard_mute : page.on_mute track ≡ none
  pub unheard_unmute : page.on_unmute track ≡ none

silence-IsSilent : (t : Track) (page : Page) → IsSilent (silence t page) t
unfolding silence
silence-IsSilent t page = ground arith

silence-keeps-IsSilent : (t u : Track) (page : Page) → IsSilent page t → IsSilent (silence u page) t
unfolding silence
silence-keeps-IsSilent t u page h = ground arith

-- The loops leave the streams' lists of tracks alone.
module _ (tracks : ℕ → List Track) where
  abbrev pub HasTracks : Page → Type 0
  HasTracks page = page.tracks ≡ tracks

  silence-HasTracks : (t : Track) (page : Page) → HasTracks page → HasTracks (silence t page)
  unfolding silence
  silence-HasTracks t page e = e

  silence_stream-HasTracks :
      (s : StreamWithUrl) (page : Page) → HasTracks page → HasTracks (silence_stream s page)
  unfolding silence_stream
  silence_stream-HasTracks s page =
      for_each_keeps silence HasTracks silence-HasTracks (get_tracks page s.stream) page

  pub stop_all_tracks-HasTracks :
      (u : UserStreams) (page : Page) → HasTracks page → HasTracks (stop_all_tracks u page)
  unfolding stop_all_tracks
  stop_all_tracks-HasTracks u page =
      for_each_keeps silence_stream HasTracks silence_stream-HasTracks u.streams page

  pub stop_entry-HasTracks :
      (e : String × UserStreams) (page : Page) → HasTracks page → HasTracks (stop_entry e page)
  stop_entry-HasTracks e page = stop_all_tracks-HasTracks e.1 page

  -- All tracks that the stream has are silent.
  abbrev pub IsSilentStream : Page → StreamWithUrl → Type 0
  IsSilentStream page s = All (IsSilent page) (tracks s.stream.ref)

  abbrev pub IsSilentUser : Page → UserStreams → Type 0
  IsSilentUser page u = All (IsSilentStream page) u.streams

module _ (tracks : ℕ → List Track) where
  silence-All : (ts : List Track) (page : Page) → All (IsSilent (for_each silence ts page)) ts
  silence-All ts page =
      for_each-All silence (λ _. Unit {0}) (λ t p. IsSilent p t) (λ _ _ _. tt)
        (λ t p _. silence-IsSilent t p) (λ t u p _. silence-keeps-IsSilent t u p) ts page tt

  silence_stream-keeps-IsSilent :
      (t : Track) (s : StreamWithUrl) (page : Page)
      → IsSilent page t
      → IsSilent (silence_stream s page) t
  unfolding silence_stream
  silence_stream-keeps-IsSilent t s page =
      for_each_keeps silence (λ p. IsSilent p t) (λ u p. silence-keeps-IsSilent t u p)
        (get_tracks page s.stream) page

  silence_stream-keeps :
      (s r : StreamWithUrl) (page : Page)
      → IsSilentStream tracks page s
      → IsSilentStream tracks (silence_stream r page) s
  silence_stream-keeps s r page =
      All-map (IsSilent page) (IsSilent (silence_stream r page))
        (λ t. silence_stream-keeps-IsSilent t r page) (tracks s.stream.ref)

  silence_stream-IsSilentStream :
      (s : StreamWithUrl) (page : Page)
      → HasTracks tracks page
      → IsSilentStream tracks (silence_stream s page) s
  unfolding silence_stream
  silence_stream-IsSilentStream s page e =
      subst
        (λ f. All (IsSilent (for_each silence (get_tracks page s.stream) page)) (f s.stream.ref)) e
        (silence-All (page.tracks s.stream.ref) page)

  stop_all_tracks-IsSilentUser :
      (u : UserStreams) (page : Page)
      → HasTracks tracks page
      → IsSilentUser tracks (stop_all_tracks u page) u
  unfolding stop_all_tracks
  stop_all_tracks-IsSilentUser u page =
      for_each-All silence_stream (HasTracks tracks) (λ s p. IsSilentStream tracks p s)
        (silence_stream-HasTracks tracks) silence_stream-IsSilentStream
        (λ s r p _. silence_stream-keeps s r p) u.streams page

  stop_entry-keeps :
      (u : UserStreams) (e : String × UserStreams) (page : Page)
      → IsSilentUser tracks page u
      → IsSilentUser tracks (stop_entry e page) u
  unfolding stop_all_tracks
  stop_entry-keeps u e page =
      for_each_keeps silence_stream (λ p. IsSilentUser tracks p u)
        (λ r p.
          All-map (IsSilentStream tracks p) (IsSilentStream tracks (silence_stream r p))
            (λ s. silence_stream-keeps s r p) u.streams)
        e.1.streams page

module _ (lib : Lodash) where
  -- Hanging up leaves no stream in the state, and every track of every stream that was there is
  -- stopped and has neither a mute nor an unmute handler.
  pub hang_up_silences :
      (state : StreamsState) (page : Page)
      → ((streams lib state Action.hang_up page).0 ≡ [])
        × All (λ e. IsSilentUser page.tracks (streams lib state Action.hang_up page).1 e.1) state
  unfolding streams
  hang_up_silences state page = (
    refl,
    rw (lib.entries_all UserStreams state) (
        for_each-All stop_entry (HasTracks page.tracks) (λ e p. IsSilentUser page.tracks p e.1)
          (stop_entry-HasTracks page.tracks) (λ e p. stop_all_tracks-IsSilentUser page.tracks e.1 p)
          (λ x y p _. stop_entry-keeps page.tracks x.1 y p) state page refl),
  )

  -- When a user who has streams leaves, the user's entry goes, and every track of the user's
  -- streams is stopped and has neither a mute nor an unmute handler.
  pub remove_user_streams_silences :
      (state : StreamsState) (user_id : String) (u : UserStreams) (page : Page)
      → get state user_id ≡ some u
      → (get (remove_user_streams lib state user_id page).0 user_id ≡ none)
        × IsSilentUser page.tracks (remove_user_streams lib state user_id page).1 u
  unfolding remove_user_streams
  remove_user_streams_silences state user_id u page e = (
    rw (lib.omit_own UserStreams state user_id u e) (get-without_self state user_id),
    rw (e, remove_user_streams) (stop_all_tracks-IsSilentUser page.tracks u page refl),
  )
