-- ===== src/Reducers/Streams/SfuIds.antt =====
-- Whose stream it is: the ids that the SFU gives to streams (getStreamWithUserId in
-- src/client/reducers/streams.ts).
use Prim.Native.String
use text.Mathlib.Text.{starts_with}
use text.Mathlib.TextLemmas.{append_assoc}
use text.Mathlib.TextPositions.{starts_with-append}
use model_lib.Prelude.{String, ◌≡◌, ◌≢◌, refl, ◌∙◌, ◌⊎◌, ap, false, [], ◌∷◌, arith, length}
use model_lib.Prelude.Text.{split, HasNoUnderscore, split-append, split_of_HasNoUnderscore}
use model_lib.Reducers.Streams.{StreamWithUserId, get_stream_with_user_id}

-- The id "sfu_" ++ user ++ "_" ++ stream that the SFU gives to a user's stream.
abbrev pub sfu_id : String → String → String
sfu_id user stream = String.◌++◌ "sfu_" (String.◌++◌ user (String.◌++◌ "_" stream))

split-sfu_id :
    (user stream : String)
    → HasNoUnderscore user
    → HasNoUnderscore stream
    → split (sfu_id user stream) ≡ "sfu" ∷ user ∷ stream ∷ []
split-sfu_id user stream hu hs =
    ap split (append_assoc "sfu" "_" (String.◌++◌ user (String.◌++◌ "_" stream)))
    ∙ split-append "sfu" (String.◌++◌ user (String.◌++◌ "_" stream)) (omega arith)
    ∙ ap (λ l. "sfu" ∷ l) (split-append user stream hu)
    ∙ ap (λ l. "sfu" ∷ user ∷ l) (split_of_HasNoUnderscore stream hs)

-- A stream whose id is "sfu_", a user, "_" and a name, neither part with an underscore, is filed
-- under that user, whoever sent it.
pub get_stream_with_user_id-sfu_id :
    (payload : StreamWithUserId) (user stream : String)
    → HasNoUnderscore user
    → HasNoUnderscore stream
    → payload.stream.id ≡ sfu_id user stream
    → get_stream_with_user_id payload ≡ record { stream = payload.stream; user_id = user }
unfolding get_stream_with_user_id
get_stream_with_user_id-sfu_id payload user stream hu hs e =
    rw
      (
        e,
        split-sfu_id user stream hu hs,
        starts_with-append "sfu_" (String.◌++◌ user (String.◌++◌ "_" stream)),
      )
      refl

-- Any other stream stays with the user who sent it: one whose id does not begin with "sfu_", or
-- has not three parts.
pub get_stream_with_user_id_other :
    (payload : StreamWithUserId)
    → (starts_with payload.stream.id "sfu_" ≡ false) ⊎ (length (split payload.stream.id) ≢ 3)
    → get_stream_with_user_id payload ≡ payload
unfolding get_stream_with_user_id
get_stream_with_user_id_other payload h = ground arith

-- Filing a stream a second time finds the same user.
pub get_stream_with_user_id_idem :
    (payload : StreamWithUserId)
    → get_stream_with_user_id (get_stream_with_user_id payload) ≡ get_stream_with_user_id payload
unfolding get_stream_with_user_id
get_stream_with_user_id_idem payload = ground arith
