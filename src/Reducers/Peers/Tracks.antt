-- ===== src/Reducers/Peers/Tracks.antt =====
-- Which tracks a peer is sending, by the calls that were made on it (src/client/reducers/peers.ts).
use model_lib.Prelude.{
  ◌≡◌, refl, Bool, false, not, ◌&&◌, ◌||◌, Option, none, some, List, [], ◌∷◌, ◌++◌, arith, any,
  for_each, for_each_keeps, ◌==◌,
}
use model_lib.Actions.{Peer, Track, MediaStream}
use model_lib.Page.{Page, Call, peer_add_track, peer_remove_track, record_call, get_tracks}

-- Whether the peer sends the track after one more call.
abbrev after_call : Peer → Track → Call → Bool → Bool
after_call p t (peer_add_track q u s) was = (q == p && u == t) || was
after_call p t (peer_remove_track q u s) was = was && not (q == p && u == t)
after_call p t _ was = was

-- Whether the peer sends the track after these calls: it was added, and not removed since.
sending_from : Bool → List Call → Peer → Track → Bool
sending_from was [] p t = was
sending_from was (c ∷ calls) p t = sending_from (after_call p t c was) calls p t

unfoldable pub sending : Page → Peer → Track → Bool
unfolding sending_from
sending page p t = sending_from false page.calls p t

sending_from-append :
    (was : Bool) (xs ys : List Call) (p : Peer) (t : Track)
    → sending_from was (xs ++ ys) p t ≡ sending_from (sending_from was xs p t) ys p t
unfolding sending_from
sending_from-append was [] ys p t = refl
sending_from-append was (c ∷ xs) ys p t = sending_from-append (after_call p t c was) xs ys p t

pub sending-record_call :
    (c : Call) (page : Page) (p : Peer) (t : Track)
    → sending (record_call c page) p t ≡ after_call p t c (sending page p t)
unfolding sending
sending-record_call c page p t = sending_from-append false page.calls (c ∷ []) p t

abbrev pub has : List Track → Track → Bool
has ts t = any (λ u. u == t) ts

pub sending-add_all :
    (q : Peer) (s : MediaStream) (ts : List Track) (page : Page) (p : Peer) (t : Track)
    → sending (for_each (λ u. record_call (peer_add_track q u s)) ts page) p t
      ≡ ((q == p && has ts t) || sending page p t)
sending-add_all q s [] page p t = ground arith
sending-add_all q s (u ∷ ts) page p t = ground (
  arith,
  sending-add_all q s ts (record_call (peer_add_track q u s) page) p t,
  sending-record_call (peer_add_track q u s) page p t,
)

pub sending-remove_all :
    (q : Peer) (s : MediaStream) (ts : List Track) (page : Page) (p : Peer) (t : Track)
    → sending (for_each (λ u. record_call (peer_remove_track q u s)) ts page) p t
      ≡ (sending page p t && not (q == p && has ts t))
sending-remove_all q s [] page p t = ground arith
sending-remove_all q s (u ∷ ts) page p t = ground (
  arith,
  sending-remove_all q s ts (record_call (peer_remove_track q u s) page) p t,
  sending-record_call (peer_remove_track q u s) page p t,
)

-- The tracks of a stream that may be missing.
abbrev pub tracks_of : Page → Option MediaStream → List Track
tracks_of page none = []
tracks_of page (some s) = get_tracks page s

-- What the recorded calls do not touch.
pub record SameMedia (page page' : Page) : Type 0 where
  pub tracks : page'.tracks ≡ page.tracks
  pub local_streams : page'.local_streams ≡ page.local_streams

pub SameMedia-calls :
    {A : Type 0} (f : A → Call) (xs : List A) (page base : Page)
    → SameMedia base page
    → SameMedia base (for_each (λ x. record_call (f x)) xs page)
SameMedia-calls f xs page base h =
    for_each_keeps (λ x. record_call (f x)) (SameMedia base)
      (λ x p k. record { tracks = k.tracks; local_streams = k.local_streams }) xs page h

pub same_media : (page : Page) → SameMedia page page
same_media page = record { tracks = refl; local_streams = refl }
