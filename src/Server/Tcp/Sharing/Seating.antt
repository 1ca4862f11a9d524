-- ===== src/Server/Tcp/Sharing/Seating.antt =====
-- crates/voipc-server/src/tcp.rs: the handlers for screen shares and where the users are.
use vo_ipc.Prelude.{ℕ, Option, none, some}
use vo_ipc.Prelude.Sets.{Ids}
use vo_ipc.Server.State.{ServerState}
use vo_ipc.Server.ScreenShare.Laws.{
  start_screen_share_kept, stop_screen_share_kept, watch_screen_share_kept,
  stop_watching_screen_share_kept,
}
use vo_ipc.Server.ScreenShare.Invariant.{Inv-Calm}
use vo_ipc.Server.Seats.Still.{Still-refl, Still-Calm}
use vo_ipc.Server.Seats.Sound.{Active, Still-Active}
use vo_ipc.Server.Tcp.Act.Keeps.{
  Keeps, Runs-bind, Runs-call, Runs-if, Runs-Outcome, Keeps-pure, Keeps-gets, Keeps-send,
  Keeps-deliver, Keeps-deliver_user, Keeps-deliver_each,
}
use vo_ipc.Server.Tcp.Sharing.{
  handle_start_screen_share, handle_stop_screen_share, tell_sharer, tell_previous,
  handle_watch_screen_share, handle_stop_watching, handle_request_keyframe,
}

module _ {P : ServerState → Type 0} where
  tell_sharer-Keeps : (sid before after : ℕ) → Keeps P (tell_sharer sid before after)
  unfolding tell_sharer
  tell_sharer-Keeps sid before after =
      Runs-bind _ _ (Keeps-deliver sid _) (λ x. Runs-if _ _ _ (Keeps-deliver sid _) (Keeps-pure tt))

  tell_previous-Keeps :
      (sharer : ℕ) (prev : Option (ℕ × ℕ × ℕ)) → Keeps P (tell_previous sharer prev)
  unfolding tell_previous
  tell_previous-Keeps sharer none = Keeps-pure tt
  tell_previous-Keeps sharer (some (prev, sid, count)) =
      Runs-if _ _ _ (Keeps-deliver sid _) (Keeps-pure tt)

module _ (lost : Ids) (sid uid n : ℕ) where
  abbrev Mine : ServerState → Type 0
  Mine = Active lost none sid uid n

  pub handle_start_screen_share-Active :
      (resolution : ℕ) → Keeps Mine (handle_start_screen_share uid sid resolution)
  unfolding handle_start_screen_share
  handle_start_screen_share-Active resolution = Runs-bind _ _ (Keeps-gets _) (λ k.
      Runs-bind _ _
        (Runs-call _ (λ s v.
          Still-Active none sid uid n s _
            (start_screen_share_kept (Still-Calm s) s uid sid k resolution (Still-refl s))
            (start_screen_share_kept Inv-Calm s uid sid k resolution v.sound.inv) v))
        (λ started.
          Runs-Outcome (λ o. Mine) started _ _ (λ error. Keeps-send sid _)
            (λ members.
              Runs-bind _ _ (Keeps-gets _)
                (λ name. Runs-bind _ _ (Keeps-deliver_each _ _) (λ x. Keeps-send sid _)))))

  pub handle_stop_screen_share-Active : Keeps Mine (handle_stop_screen_share uid sid)
  unfolding handle_stop_screen_share
  handle_stop_screen_share-Active = Runs-bind _ _ (Keeps-gets _) (λ k.
      Runs-bind _ _
        (Runs-call _ (λ s v.
          Still-Active none sid uid n s _
            (stop_screen_share_kept (Still-Calm s) s uid sid k (Still-refl s))
            (stop_screen_share_kept Inv-Calm s uid sid k v.sound.inv) v))
        (λ stopped.
          Runs-Outcome (λ o. Mine) stopped _ _ (λ error. Keeps-send sid _)
            (λ both.
              Runs-bind _ _ (Keeps-deliver_each _ _)
                (λ x. Runs-bind _ _ (Keeps-deliver_each _ _) (λ y. Keeps-send sid _)))))

  pub handle_watch_screen_share-Active :
      (sharer : ℕ) → Keeps Mine (handle_watch_screen_share uid sid sharer)
  unfolding handle_watch_screen_share
  handle_watch_screen_share-Active sharer = Runs-bind _ _ (Keeps-gets _) (λ k.
      Runs-bind _ _
        (Runs-call _ (λ s v.
          Still-Active none sid uid n s _
            (watch_screen_share_kept (Still-Calm s) s uid sid sharer k (Still-refl s))
            (watch_screen_share_kept Inv-Calm s uid sid sharer k v.sound.inv) v))
        (λ watched.
          Runs-Outcome (λ o. Mine) watched _ _ (λ error. Keeps-send sid _)
            (λ w. Runs-bind _ _ (Keeps-send sid _) (λ x.
              Runs-bind _ _ (tell_sharer-Keeps w.0 w.1 w.2)
                (λ y. tell_previous-Keeps sharer w.3)))))

  pub handle_stop_watching-Active : Keeps Mine (handle_stop_watching uid sid)
  unfolding handle_stop_watching
  handle_stop_watching-Active = Runs-bind _ _ (Keeps-gets _) (λ k.
      Runs-bind _ _
        (Runs-call _ (λ s v.
          Still-Active none sid uid n s _
            (stop_watching_screen_share_kept (Still-Calm s) s uid sid k (Still-refl s))
            (stop_watching_screen_share_kept Inv-Calm s uid sid k v.sound.inv) v))
        (λ stopped.
          Runs-Outcome (λ o. Mine) stopped _ _ (λ error. Keeps-send sid _)
            (λ w. Runs-bind _ _ (Keeps-send sid _) (λ x. Keeps-deliver w.1 _))))

  pub handle_request_keyframe-Active : (sharer : ℕ) → Keeps Mine (handle_request_keyframe sharer)
  unfolding handle_request_keyframe
  handle_request_keyframe-Active sharer = Keeps-deliver_user sharer _
