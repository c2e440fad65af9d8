-- ===== src/Page/Turning.antt =====
-- What the reducers leave as it is on the page (src/client/reducers): the ids that uniqueId gave, and
-- whose connections are listened to.
use model_lib.Prelude.{
  String, ◌≡◌, ◌≢◌, refl, sym, ap, ◌∙◌, Option, none, some, List, [], ◌∷◌, for_each, Bool-cases,
  inl, inr, ◌=?◌,
}
use model_lib.Actions.{Peer, MediaStream, Track, me}
use model_lib.Lodash.{IsPlainKey}
use model_lib.Page.{
  Page, Call, Listeners, Timeout, record_call, revoke_url, stop_tracks, run_timeout, fire_timeout,
  destroy_peers,
}

-- The id of a user other than the local one, as the server hands it out.
abbrev pub IsOther : String → Type 0
IsOther user_id = IsPlainKey user_id × (user_id ≢ me)

-- The connections that are listened to are with other users.
pub record IsHeard (page : Page) : Type 0 where
  pub other : (p : Peer) (l : Listeners) → page.listeners p ≡ some l → IsOther l.user_id

-- From one page to another without an id from uniqueId, and with other users heard only.
pub record Turns (p q : Page) : Type 0 where
  pub ids : q.unique_ids ≡ p.unique_ids
  pub hears : IsHeard p → IsHeard q

pub Turns-refl : (p : Page) → Turns p p
Turns-refl p = record { ids = refl; hears = λ h. h }

pub Turns-trans : (p q r : Page) → Turns p q → Turns q r → Turns p r
Turns-trans p q r a b = record { ids = b.ids ∙ a.ids; hears = λ h. b.hears (a.hears h) }

-- Nothing about ids or listeners has changed.
pub same_Turns : (p q : Page) → q.unique_ids ≡ p.unique_ids → q.listeners ≡ p.listeners → Turns p q
same_Turns p q ids listeners = record {
  ids = ids;
  hears = λ h. record { other = λ k l e. h.other k l (sym (ap (λ ls. ls k) listeners) ∙ e) };
}

pub for_each-Turns {ℓ} :
    {A : Type ℓ} (f : A → Page → Page)
    → ((x : A) (p : Page) → Turns p (f x p))
    → (xs : List A) (p : Page) → Turns p (for_each f xs p)
for_each-Turns f step [] p = Turns-refl p
for_each-Turns f step (x ∷ xs) p =
    Turns-trans p (f x p) _ (step x p) (for_each-Turns f step xs (f x p))

pub calls-Turns {ℓ} :
    {A : Type ℓ} (call : A → Call) (xs : List A) (p : Page)
    → Turns p (for_each (λ x. record_call (call x)) xs p)
calls-Turns call xs p =
    for_each-Turns (λ x. record_call (call x)) (λ x p. same_Turns p _ refl refl) xs p

pub revoke_url-Turns : (url : Option String) (p : Page) → Turns p (revoke_url url p)
unfolding revoke_url
revoke_url-Turns none p = Turns-refl p
revoke_url-Turns (some url) p = elim (Bool-cases (url =? "")) [
  | inl empty ↦ rw empty (Turns-refl p)
  | inr full ↦ rw full (same_Turns p _ refl refl)
]

pub stop_tracks-Turns : (stream : MediaStream) (p : Page) → Turns p (stop_tracks stream p)
unfolding stop_tracks
stop_tracks-Turns stream p =
    for_each-Turns _ (λ (t : Track) p. same_Turns p _ refl refl) (p.tracks stream.ref) p

run_timeout-Turns : (t : Timeout) (p : Page) → Turns p (run_timeout t p)
unfolding run_timeout
run_timeout-Turns (destroy_peers ps) p = calls-Turns Call.peer_destroy ps p

fire_first-Turns :
    (ts : List Timeout) (p : Page) → Turns p (fire_timeout (record p { timeouts = ts }))
unfolding fire_timeout
fire_first-Turns [] p = same_Turns p _ refl refl
fire_first-Turns (t ∷ ts) p =
    Turns-trans p (record p { timeouts = ts }) _ (same_Turns p _ refl refl)
      (run_timeout-Turns t (record p { timeouts = ts }))

pub fire_timeout-Turns : (p : Page) → Turns p (fire_timeout p)
fire_timeout-Turns p = fire_first-Turns p.timeouts p
