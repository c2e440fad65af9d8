-- ===== src/Reducers/Nicknames/Users.antt =====
-- Who is in the call, and the local user's place among them (src/client/reducers/nicknames.ts).
use model_lib.Prelude.{
  String, ◌≡◌, ◌≢◌, refl, Option, none, some, [], ◌∷◌, arith, for_each, for_each_keeps,
  if◌then◌else◌, ◌=?◌, eq_iff, eq_refl,
}
use mathlib.Core.Option
use model_lib.Prelude.Dict.{Dict, get, put, get-put, get-without, dict_laws}
use model_lib.Actions.{Action, me}
use model_lib.Lodash.{Lodash, IsPlainKey}
use model_lib.Reducers.Nicknames.{
  Nicknames, nickname_of, remove_nickname, set_nickname, set_nicknames, nicknames,
}

-- The key is there, whatever its value.
abbrev pub Has : Nicknames → String → Type 0
Has state k = get state k ≢ none

put-Has :
    (state : Nicknames) (k j : String) (v : Option String) → Has state j → Has (put state k v) j
put-Has state k j v h = simp dict_laws (ground arith)

set_nickname-Has-me :
    (own : String) (e : String × String) (obj : Nicknames)
    → Has obj me
    → Has (set_nickname own e obj) me
unfolding set_nickname
set_nickname-Has-me own e obj h = grind (arith, put-Has)

-- The user ids that reach `omit` in this reducer with no check that they are keys, and the removal
-- of the local user as a peer, which no code of the client dispatches.
abbrev pub RemovesOther : Action → Type 0
RemovesOther (Action.peer_remove user_id) = IsPlainKey user_id × (user_id ≢ me)
RemovesOther _ = Unit

singleton-Has : (v : Option String) → Has ((me, v) ∷ []) me
unfolding get
singleton-Has v = ground (arith, eq_refl me)

module _ (lib : Lodash) (own : String) where
  -- The local user stays among the users under every action except the removal of the local user
  -- as a peer, with the removed ids plain keys.
  pub nicknames-Has-me :
      (state : Nicknames) (action : Action)
      → RemovesOther action
      → Has state me
      → Has (nicknames lib own state action) me
  unfolding nicknames set_nicknames remove_nickname
  nicknames-Has-me state (Action.peer_remove user_id) h k =
      rw (lib.omit_plain (Option String) state user_id h.0)
        (simp dict_laws (ground (arith, eq_iff user_id me)))
  nicknames-Has-me state Action.hang_up h k = singleton-Has _
  nicknames-Has-me state (Action.nickname_remove user_id) h k =
      ground (arith, get-without state user_id me)
  nicknames-Has-me state (Action.nicknames_set payload) h k =
      for_each_keeps (set_nickname own) (λ s. Has s me) (set_nickname-Has-me own) payload _
        (singleton-Has _)
  nicknames-Has-me state _ h k = k

-- Each key stands once, as in a JavaScript object.
abbrev pub UniqueKeys {ℓ} : {V : Type ℓ} → Dict V → Type ℓ
UniqueKeys [] = Unit
UniqueKeys (e ∷ rest) = (get rest e.0 ≡ none) × UniqueKeys rest

-- The value that the server's list gives, or the old one.
abbrev pub given_or : Option String → Option (Option String) → Option (Option String)
given_or none old = old
given_or (some v) old = some (some v)

get-set_nickname :
    (own : String) (e : String × String) (obj : Nicknames) (j : String)
    → j ≢ me
    → j ≢ own
    → get (set_nickname own e obj) j ≡ (if e.0 =? j then some (some e.1) else get obj j)
unfolding set_nickname
get-set_nickname own e obj j hm ho = ground (
  arith,
  get-put obj me j (some e.1),
  get-put obj e.0 j (some e.1),
  eq_iff me j,
  eq_iff e.0 own,
  eq_iff e.0 j,
)

get-for_each_set :
    (own : String) (payload : Dict String) (obj : Nicknames) (j : String)
    → UniqueKeys payload
    → j ≢ me
    → j ≢ own
    → get (for_each (set_nickname own) payload obj) j ≡ given_or (get payload j) (get obj j)
unfolding get
get-for_each_set own [] obj j u hm ho = refl
get-for_each_set own (e ∷ rest) obj j u hm ho = ground (
  arith,
  get-for_each_set own rest (set_nickname own e obj) j u.1 hm ho,
  get-set_nickname own e obj j hm ho,
  eq_iff e.0 j,
)

get-set_nickname-me :
    (own : String) (e : String × String) (obj : Nicknames)
    → e.0 ≢ me
    → get (set_nickname own e obj) me ≡ (if e.0 =? own then some (some e.1) else get obj me)
unfolding set_nickname
get-set_nickname-me own e obj h =
    ground (
      arith,
      get-put obj me me (some e.1),
      get-put obj e.0 me (some e.1),
      eq_iff e.0 me,
      eq_refl me,
    )

get-for_each_set_me :
    (own : String) (payload : Dict String) (obj : Nicknames)
    → UniqueKeys payload
    → get payload me ≡ none
    → get (for_each (set_nickname own) payload obj) me ≡ given_or (get payload own) (get obj me)
unfolding get
get-for_each_set_me own [] obj u h = refl
get-for_each_set_me own (e ∷ rest) obj u h = ground (
  arith,
  get-for_each_set_me own rest (set_nickname own e obj) u.1,
  get-set_nickname-me own e obj,
  eq_iff e.0 me,
  eq_iff e.0 own,
)

module _ (own : String) where
  -- After the server's list, whose keys are distinct, a user other than the local one is among
  -- the users, with the name of the list, exactly if the list has the user.
  pub get-set_nicknames :
      (state : Nicknames) (payload : Dict String) (j : String)
      → UniqueKeys payload
      → j ≢ me
      → j ≢ own
      → get (set_nicknames own state payload) j ≡ Option.map some (get payload j)
  unfolding set_nicknames get
  get-set_nicknames state payload j u hm ho =
      ground (
        arith,
        get-for_each_set own payload ((me, nickname_of state me) ∷ []) j u hm ho,
        eq_iff me j,
      )

  -- After the server's list, whose keys are distinct and are not "_me_", the local user has the
  -- name that the list gives to the user's own id, or the name of before if the list does not
  -- have it.
  pub get-set_nicknames-me :
      (state : Nicknames) (payload : Dict String)
      → UniqueKeys payload
      → get payload me ≡ none
      → get (set_nicknames own state payload) me
        ≡ given_or (get payload own) (some (nickname_of state me))
  unfolding set_nicknames get
  get-set_nicknames-me state payload u h =
      ground
        (arith, get-for_each_set_me own payload ((me, nickname_of state me) ∷ []) u h, eq_refl me)
