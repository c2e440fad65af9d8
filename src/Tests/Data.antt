-- ===== src/Tests/Data.antt =====
-- A concrete lodash, a page and two users' streams to run the definitions on.
use Prim.Native.String
use text.Mathlib.TextLemmas.{append_cancel_left, tail-eq_of_cons-eq, cons-ne-nil}
use model_lib.Prelude.{
  ℕ, zero, suc, String, ◌≡◌, refl, sym, ap, true, false, none, some, List, [], ◌∷◌, ◌==◌,
  if◌then◌else◌, ◌∙◌, Option-cases, inl, inr, arith,
}
use model_lib.Prelude.Dict.{Dict, get, put, without, get-put}
use model_lib.Actions.{Track, MediaStream}
use model_lib.Page.{Page, Listeners}
use model_lib.Lodash.{Lodash, last_or, last_with}
use model_lib.Reducers.Streams.{StreamWithUrl, StreamsState}

-- omit, deleting one key after the other
abbrev omit_keys : (V : Type 0) → Dict V → List String → Dict V
omit_keys V d [] = d
omit_keys V d (k ∷ ks) = omit_keys V (without d k) ks

abbrev pub tally : ℕ → String
tally zero = ""
tally (suc n) = String.◌∷◌ "i" (tally n)

tally_injective : (m n : ℕ) → tally m ≡ tally n → m ≡ n
tally_injective zero zero e = refl
tally_injective zero (suc n) e = absurd (cons-ne-nil "i" (tally n) (sym e))
tally_injective (suc m) zero e = absurd (cons-ne-nil "i" (tally m) e)
tally_injective (suc m) (suc n) e = ap suc (tally_injective m n (tail-eq_of_cons-eq e))

abbrev counted_id : String → ℕ → String
counted_id prefix n = String.◌++◌ prefix (tally n)

pub counted_id_injective :
    (prefix : String) (m n : ℕ) → counted_id prefix m ≡ counted_id prefix n → m ≡ n
counted_id_injective prefix m n e = tally_injective m n (append_cancel_left prefix _ _ e)

-- keyBy, with what the object had before
abbrev keyed : {V : Type 0} → (V → String) → List V → Dict V → Dict V
keyed f [] d = d
keyed f (v ∷ vs) d = keyed f vs (put d (f v) v)

get-keyed :
    {V : Type 0} (f : V → String) (vs : List V) (d : Dict V) (k : String)
    → get (keyed f vs d) k ≡ last_or (last_with f k vs) (get d k)
get-keyed f [] d k = refl
get-keyed f (v ∷ vs) d k =
    get-keyed f vs (put d (f v) v) k
    ∙ ap (last_or (last_with f k vs)) (get-put d (f v) k v)
    ∙ elim (Option-cases (last_with f k vs)) [
      | inl absent ↦ rw absent (ground arith)
      | inr (w, there) ↦ rw there refl
    ]

pub get-keyed_last :
    {V : Type 0} (f : V → String) (vs : List V) (k : String)
    → get (keyed f vs []) k ≡ last_with f k vs
unfolding get
get-keyed_last f vs k = get-keyed f vs [] k ∙ elim (Option-cases (last_with f k vs)) [
  | inl absent ↦ rw absent refl
  | inr (w, there) ↦ rw there refl
]

abbrev pub lodash : Lodash
lodash = record {
  omit = omit_keys;
  entries = λ V d. d;
  key_by = λ V f vs. keyed f vs [];
  unique_id = counted_id;
  omit_own = λ V d k v e. refl;
  omit_plain = λ V d k h. refl;
  entries_all = λ V d. refl;
  key_by_last = λ V f vs k. get-keyed_last f vs k;
  unique_id_injective = counted_id_injective;
}

-- Stream 1 has the tracks 10 and 11, stream 2 has the track 20, every other stream has none.
abbrev pub tracks : ℕ → List Track
tracks n = if n == 1 then 10 ∷ 11 ∷ [] else if n == 2 then 20 ∷ [] else []

-- Alice has connected, Bob has not.
abbrev alice_heard : Listeners
alice_heard = record { user_id = "alice"; on_error = true; on_connect = false; on_close = true }

abbrev pub bob_heard : Listeners
bob_heard = record { user_id = "bob"; on_error = true; on_connect = true; on_close = true }

abbrev pub page : Page
page = record {
  tracks = tracks;
  ended = λ t. false;
  on_mute = λ t. none;
  on_unmute = λ t. none;
  url_results = λ n. some "blob:u";
  url_calls = 0;
  local_streams = record { camera = none; desktop = none };
  peers_made = 7;
  listeners = λ p. if p == 3 then some alice_heard else if p == 4 then some bob_heard else none;
  unique_ids = 0;
  now = "noon";
  calls = [];
  timeouts = [];
}

abbrev pub stream_1 : MediaStream
stream_1 = record { ref = 1; id = "s1" }

abbrev pub stream_2 : MediaStream
stream_2 = record { ref = 2; id = "s2" }

abbrev pub entry : MediaStream → StreamWithUrl
entry stream = record { stream = stream; type = none; url = some "blob:u" }

-- Alice has both streams.
abbrev pub two_streams : StreamsState
two_streams =
    ("alice", record { user_id = "alice"; streams = entry stream_1 ∷ entry stream_2 ∷ [] }) ∷ []
