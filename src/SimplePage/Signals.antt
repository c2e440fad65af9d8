-- ===== src/SimplePage/Signals.antt =====
-- Where a signal goes (src/client/index-simple.tsx).
use model_lib.Prelude.{
  ℕ, zero, suc, String, ◌≡◌, refl, ap, ◌∙◌, List, [], ◌∷◌, ◌++◌, for_each, for_each_keeps, map,
  arith, sym, Option-cases, inl, inr,
}
use mathlib.Core.List.{append_assoc, append-nil}
use model_lib.Actions.{Peer, Track, MediaStream}
use model_lib.Client.Capture.{Outcome, done, failed}
use model_lib.Page.{Call, SignalData}
use model_lib.SimplePage.{
  SimplePage, new_page, PageEvent, note_call, append_child, connected, users, signal,
  peer_signalled, stream_got, tracked, muted, unmuted, remove_child, add_peer, show_stream,
  show_track, times, page_event, page_of,
}

-- The peers with the numbers below this one, in their order.
abbrev pub first_peers : ℕ → List Peer
first_peers zero = []
first_peers (suc n) = first_peers n ++ n ∷ []

abbrev HearsAll : SimplePage → Type 0
HearsAll page = page.signal_listeners ≡ first_peers page.peers_made

add_tracks-HearsAll :
    (f : ℕ → Call) (ts : List ℕ) (page : SimplePage)
    → HearsAll page
    → HearsAll (for_each (λ t. note_call (f t)) ts page)
add_tracks-HearsAll f [] page h = h
add_tracks-HearsAll f (t ∷ ts) page h = add_tracks-HearsAll f ts (note_call (f t) page) h

calls-for_each :
    (f : ℕ → Call) (ts : List ℕ) (page : SimplePage)
    → (for_each (λ t. note_call (f t)) ts page).calls ≡ page.calls ++ map f ts
calls-for_each f [] page = sym (append-nil page.calls)
calls-for_each f (t ∷ ts) page =
    calls-for_each f ts (note_call (f t) page) ∙ append_assoc page.calls (f t ∷ []) (map f ts)

show_stream-HearsAll :
    (peer : Peer) (o : Outcome (MediaStream × List Track)) (page : SimplePage)
    → HearsAll page
    → HearsAll (show_stream peer o page)
unfolding show_stream
show_stream-HearsAll peer (failed e) page h = h
show_stream-HearsAll peer (done got) page h =
    add_tracks-HearsAll (λ t. Call.peer_add_track peer t got.0) got.1 (append_child page) h

remove_child-HearsAll :
    (el : ℕ) (page : SimplePage) → HearsAll page → HearsAll (page_of (remove_child el page))
unfolding remove_child
remove_child-HearsAll el page h = ground (arith, h)

module _ (user_id call_id : String) where
  times-HearsAll :
      (n : ℕ) (initiator : String) (page : SimplePage)
      → HearsAll page
      → HearsAll (times n (add_peer user_id initiator) page)
  unfolding add_peer
  times-HearsAll zero initiator page h = h
  times-HearsAll (suc n) initiator page h =
      times-HearsAll n initiator (add_peer user_id initiator page)
        (ap (λ l. l ++ page.peers_made ∷ []) h)

  mute-HearsAll :
      (track : Track) (page : SimplePage)
      → HearsAll page
      → HearsAll (page_of (page_event user_id call_id (muted track) page))
  unfolding page_event
  mute-HearsAll track page h = elim (Option-cases (page.on_mute track)) [
    | inl absent ↦ rw (absent, page_event) h
    | inr (el, handled) ↦ rw (handled, page_event) (remove_child-HearsAll el page h)
  ]

  page_event-HearsAll :
      (event : PageEvent) (page : SimplePage)
      → HearsAll page
      → HearsAll (page_of (page_event user_id call_id event page))
  unfolding page_event show_track
  page_event-HearsAll connected page h = h
  page_event-HearsAll (users initiator) page h =
      times-HearsAll page.users_listeners initiator page h
  page_event-HearsAll (signal data') page h =
      add_tracks-HearsAll (λ peer. Call.peer_signal peer data') page.signal_listeners page h
  page_event-HearsAll (peer_signalled data') page h = h
  page_event-HearsAll (stream_got peer outcome) page h = show_stream-HearsAll peer outcome page h
  page_event-HearsAll (tracked track) page h = h
  page_event-HearsAll (muted track) page h = mute-HearsAll track page h
  page_event-HearsAll (unmuted track) page h = h

  -- The page after a history, from when it is loaded.
  abbrev pub after_history : List PageEvent → SimplePage
  after_history history =
      for_each (λ h page. page_of (page_event user_id call_id h page)) history new_page

  -- Whatever has happened on the page, a signal from the server is passed once to each of the peers
  -- made so far, in their order, the ones of earlier lists of users too.
  pub signal-all_peers :
      (history : List PageEvent) (data' : SignalData)
      → let page = after_history history in
        (page_of (page_event user_id call_id (signal data') page)).calls
        ≡ page.calls ++ map (λ peer. Call.peer_signal peer data') (first_peers page.peers_made)
  unfolding page_event
  signal-all_peers history data' =
      let page = after_history history in
      calls-for_each (λ peer. Call.peer_signal peer data') page.signal_listeners page
      ∙ ap (λ ps. page.calls ++ map (λ peer. Call.peer_signal peer data') ps)
          (for_each_keeps (λ h page. page_of (page_event user_id call_id h page)) HearsAll
            page_event-HearsAll history new_page refl)
