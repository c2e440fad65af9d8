-- ===== src/Client/Moves/Good.antt =====
-- What holds of the client whatever its code does (src/client/reducers).
use model_lib.Prelude.{String, sym, subst, List, ap, ◌∙◌}
use model_lib.Actions.{Action, NotifyType, me}
use model_lib.Page.{Page}
use model_lib.Page.Turning.{IsHeard, Turns, Turns-trans}
use model_lib.Reducers.Streams.Invariant.{IsWellFormed, HasPlainIds, streams-IsWellFormed}
use model_lib.Reducers.Streams.Turning.{streams-Turns}
use model_lib.Reducers.Peers.Turning.{peers-Turns}
use model_lib.Reducers.Nicknames.Users.{Has, RemovesOther, nicknames-Has-me}
use model_lib.Reducers.Notifications.{make_notification, notifications}
use model_lib.Reducers.Notifications.Entries.{
  AllFiled, AllFiled-mono, IsMade, new_entry-IsFiled, notifications-AllFiled,
  notifications-listeners,
}
use model_lib.Store.{Env, App, dispatch}
use model_lib.Store.Dispatch.{
  page_noted, page_shared, dispatch-page, dispatch-streams, dispatch-nicknames,
  dispatch-notifications,
}
use model_lib.Client.Notify.{notify, format}
use model_lib.Client.PeerHandler.{on_page}
use model_lib.Client.Moves.{IsUsual, Moves, Moves-keep}

module _ (env : Env) where
  -- The streams are well formed, every notification is filed under its own id, the local user is
  -- among the users, and the connections that are listened to are with others.
  pub record IsGood (app : App) : Type 0 where
    pub streams : IsWellFormed app.state.streams
    pub filed : AllFiled env.lodash app.page.unique_ids app.state.notifications
    pub has_me : Has app.state.nicknames me
    pub heard : IsHeard app.page

  -- What the reducers of the streams and of the peers leave of the page.
  noted-Turns : (a : Action) (app : App) → Turns (page_noted env a app) (dispatch env a app).page
  noted-Turns a app = subst (Turns (page_noted env a app)) (sym (dispatch-page env a app)) (
      Turns-trans (page_noted env a app) (page_shared env a app) _
        (peers-Turns env.lodash app.state.peers a (page_noted env a app))
        (streams-Turns env.lodash app.state.streams a (page_shared env a app)))

  pub dispatch-IsGood :
      (a : Action) (app : App)
      → HasPlainIds a
      → RemovesOther a
      → IsMade env.lodash app.page.unique_ids a
      → IsGood app
      → IsGood (dispatch env a app)
  dispatch-IsGood a app plain other made g =
      let turned = noted-Turns a app in
      record {
        streams = subst IsWellFormed (sym (dispatch-streams env a app)) (
            streams-IsWellFormed env.lodash app.state.streams a (page_shared env a app) plain
              g.streams);
        filed =
            subst (AllFiled env.lodash (dispatch env a app).page.unique_ids)
              (sym (dispatch-notifications env a app))
              (subst
                (λ n.
                  AllFiled env.lodash n
                    (notifications env.lodash app.state.notifications a app.page).0)
                (sym turned.ids)
                (notifications-AllFiled env.lodash app.state.notifications a app.page made
                  g.filed));
        has_me =
            subst (λ ns. Has ns me) (sym (dispatch-nicknames env a app))
              (nicknames-Has-me env.lodash env.user_id app.state.nicknames a other g.has_me);
        heard = turned.hears (record {
          other = λ p l e. g.heard.other p l (
              sym (
                ap (λ ls. ls p)
                  (notifications-listeners env.lodash app.state.notifications a app.page))
              ∙ e);
        });
      }

  notify-IsGood :
      (type : NotifyType) (text : String) (args : List String) (app : App)
      → IsGood app
      → IsGood (notify env type text args app)
  unfolding notify make_notification
  notify-IsGood type text args app g =
      dispatch-IsGood (Action.notify _) _ tt tt
        (new_entry-IsFiled env.lodash type (format env text args) app.page)
        (record {
          streams = g.streams;
          filed = AllFiled-mono env.lodash app.page.unique_ids app.state.notifications g.filed;
          has_me = g.has_me;
          heard = record { other = g.heard.other };
        })

  usual-IsGood :
      (action : Action) (app : App) → IsUsual action → IsGood app → IsGood (dispatch env action app)
  usual-IsGood (Action.notify n) app u g = absurd u
  usual-IsGood Action.socket_connected app u g = absurd u
  usual-IsGood Action.socket_disconnected app u g = absurd u
  usual-IsGood (Action.nickname_remove user_id) app u g = dispatch-IsGood _ app u tt tt g
  usual-IsGood (Action.peer_remove user_id) app u g = dispatch-IsGood _ app tt u tt g
  usual-IsGood _ app u g = dispatch-IsGood _ app tt tt tt g

  turn-IsGood :
      (f : Page → Page) (app : App)
      → Turns app.page (f app.page)
      → IsGood app
      → IsGood (on_page f app)
  turn-IsGood f app t g = record {
    streams = g.streams;
    filed = subst (λ n. AllFiled env.lodash n app.state.notifications) (sym t.ids) g.filed;
    has_me = g.has_me;
    heard = t.hears g.heard;
  }

  -- Whatever the client's code does, all stays good.
  pub Moves-IsGood : (a b : App) → Moves env a b → IsGood a → IsGood b
  Moves-IsGood = Moves-keep env IsGood notify-IsGood usual-IsGood turn-IsGood
