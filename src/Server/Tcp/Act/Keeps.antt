-- ===== src/Server/Tcp/Act/Keeps.antt =====
-- Properties of the state before and after a handler, one rule for each way to build a handler.
use vo_ipc.Prelude.{
  ℕ, ◌≡◌, refl, sym, subst, ◌∙◌, Bool, true, false, Option, none, some, List, [], ◌∷◌,
  if◌then◌else◌, Option-cases, inl, inr, arith,
}
use vo_ipc.Prelude.Maps.{lookup}
use vo_ipc.Server.State.{UserSession, ServerState, Failure, Outcome, done, failed, update_session}
use vo_ipc.Server.Rates.{Clock, RateLimiter, try_consume}
use vo_ipc.Server.Messages.{ServerMessage}
use vo_ipc.Server.Tcp.Act.{
  Act, pure, gets, call, change, send, ◌>>=◌, deliver, deliver_user, deliver_each, broadcast_to_all,
  broadcast_to_channel, take_token,
}

-- From a state with `P`, the handler ends in a state with `Q` of its result.
pub record Runs {A : Type 0} (P : ServerState → Type 0) (m : Act A) (Q : A → ServerState → Type 0)
    : Type 0 where
  pub at : (s : ServerState) → P s → Q (m s).0 (m s).1

abbrev pub Keeps : {A : Type 0} → (ServerState → Type 0) → Act A → Type 0
Keeps P m = Runs P m (λ a s. P s)

module _ {A B : Type 0} {P : ServerState → Type 0} {R : A → ServerState → Type 0}
    {Q : B → ServerState → Type 0} where
  pub Runs-bind :
      (m : Act A) (f : A → Act B) → Runs P m R → ((a : A) → Runs (R a) (f a) Q) → Runs P (m >>= f) Q
  unfolding ◌>>=◌
  Runs-bind m f km kf = record { at = λ s h. (kf (m s).0).at (m s).1 (km.at s h) }

module _ {A : Type 0} {P : ServerState → Type 0} {Q : A → ServerState → Type 0} where
  pub Runs-call :
      (op : ServerState → ServerState × A)
      → ((s : ServerState) → P s → Q (op s).1 (op s).0)
      → Runs P (call op) Q
  unfolding call
  Runs-call op h = record { at = h }

  pub Runs-if : (b : Bool) (m n : Act A) → Runs P m Q → Runs P n Q → Runs P (if b then m else n) Q
  Runs-if true m n km kn = km
  Runs-if false m n km kn = kn

module _ {A B : Type 0} {Q : B → ServerState → Type 0} where
  pub Runs-Option :
      (R : Option A → ServerState → Type 0) (o : Option A) (m : Act B) (f : A → Act B)
      → Runs (R none) m Q
      → ((a : A) → Runs (R (some a)) (f a) Q)
      → Runs (R o) (elim o [ none ↦ m | some a ↦ f a ]) Q
  Runs-Option R none m f km kf = km
  Runs-Option R (some a) m f km kf = kf a

  pub Runs-Outcome :
      (R : Outcome A → ServerState → Type 0) (o : Outcome A) (g : Failure → Act B) (f : A → Act B)
      → ((error : Failure) → Runs (R (failed error)) (g error) Q)
      → ((a : A) → Runs (R (done a)) (f a) Q)
      → Runs (R o) (elim o [ failed error ↦ g error | done a ↦ f a ]) Q
  Runs-Outcome R (failed error) g f kg kf = kg error
  Runs-Outcome R (done a) g f kg kf = kf a

module _ {A : Type 0} {P : ServerState → Type 0} {Q : A → ServerState → Type 0} where
  pub Runs-pure : (a : A) → ((s : ServerState) → P s → Q a s) → Runs P (pure a) Q
  unfolding pure
  Runs-pure a h = record { at = h }

module _ {A : Type 0} {P P' : ServerState → Type 0} {Q Q' : A → ServerState → Type 0} where
  pub Runs-both :
      (m : Act A) → Runs P m Q → Runs P' m Q' → Runs (λ s. P s × P' s) m (λ a s. Q a s × Q' a s)
  Runs-both m k k' = record { at = λ s h. (k.at s h.0, k'.at s h.1) }

module _ {A : Type 0} {P : ServerState → Type 0} where
  pub Keeps-pure : (a : A) → Keeps P (pure a)
  unfolding pure
  Keeps-pure a = record { at = λ s h. h }

  pub Keeps-gets : (f : ServerState → A) → Keeps P (gets f)
  unfolding gets
  Keeps-gets f = record { at = λ s h. h }

  -- What is read is known afterwards.
  pub Runs-gets : (f : ServerState → A) → Runs P (gets f) (λ a s. P s × (a ≡ f s))
  unfolding gets
  Runs-gets f = record { at = λ s h. (h, refl) }

  -- The state stays.
  pub Keeps-same : (m : Act A) → ((s : ServerState) → (m s).1 ≡ s) → Keeps P m
  Keeps-same m same = record { at = λ s h. subst P (sym (same s)) h }

  pub Runs-weaken :
      {R Q : ServerState → Type 0} (m : Act A)
      → Runs P m (λ a. R)
      → ((s : ServerState) → R s → Q s)
      → Runs P m (λ a. Q)
  Runs-weaken m k h = record { at = λ s p. h (m s).1 (k.at s p) }

-- What only sends leaves the state as it is.
deliver-state : (sid : ℕ) (msg : ServerMessage) (s : ServerState) → (deliver sid msg s).1 ≡ s
unfolding deliver
deliver-state sid msg s = ground arith

deliver_user-state :
    (uid : ℕ) (msg : ServerMessage) (s : ServerState) → (deliver_user uid msg s).1 ≡ s
unfolding deliver_user
deliver_user-state uid msg s = ground arith

deliver_each-state :
    (sids : List ℕ) (msg : ServerMessage) (s : ServerState) → (deliver_each sids msg s).1 ≡ s
unfolding deliver_each pure ◌>>=◌
deliver_each-state [] msg s = refl
deliver_each-state (sid ∷ sids) msg s =
    deliver_each-state sids msg (deliver sid msg s).1 ∙ deliver-state sid msg s

broadcast_to_channel-state :
    (k : ℕ) (msg : ServerMessage) (exclude : Option ℕ) (s : ServerState)
    → (broadcast_to_channel k msg exclude s).1 ≡ s
unfolding broadcast_to_channel
broadcast_to_channel-state k msg exclude s = ground arith

module _ {P : ServerState → Type 0} where
  pub Keeps-change :
      (f : ServerState → ServerState) → ((s : ServerState) → P s → P (f s)) → Keeps P (change f)
  unfolding change
  Keeps-change f h = record { at = h }

  pub Runs-change :
      {Q : ServerState → Type 0} (f : ServerState → ServerState)
      → ((s : ServerState) → P s → Q (f s))
      → Runs P (change f) (λ x. Q)
  unfolding change
  Runs-change f h = record { at = h }

  pub Runs-send :
      {Q : ServerState → Type 0} (sid : ℕ) (msg : ServerMessage)
      → ((s : ServerState) → P s → Q s)
      → Runs P (send sid msg) (λ x. Q)
  unfolding send
  Runs-send sid msg h = record { at = h }

  pub Keeps-send : (sid : ℕ) (msg : ServerMessage) → Keeps P (send sid msg)
  unfolding send
  Keeps-send sid msg = record { at = λ s h. h }

  pub Keeps-deliver : (sid : ℕ) (msg : ServerMessage) → Keeps P (deliver sid msg)
  Keeps-deliver sid msg = Keeps-same (deliver sid msg) (deliver-state sid msg)

  pub Keeps-deliver_user : (uid : ℕ) (msg : ServerMessage) → Keeps P (deliver_user uid msg)
  Keeps-deliver_user uid msg = Keeps-same (deliver_user uid msg) (deliver_user-state uid msg)

  pub Keeps-deliver_each : (sids : List ℕ) (msg : ServerMessage) → Keeps P (deliver_each sids msg)
  Keeps-deliver_each sids msg = Keeps-same (deliver_each sids msg) (deliver_each-state sids msg)

  pub Keeps-broadcast_to_all :
      (msg : ServerMessage) (exclude : Option ℕ) → Keeps P (broadcast_to_all msg exclude)
  unfolding broadcast_to_all
  Keeps-broadcast_to_all msg exclude = record { at = λ s h. h }

  pub Keeps-broadcast_to_channel :
      (k : ℕ) (msg : ServerMessage) (exclude : Option ℕ)
      → Keeps P (broadcast_to_channel k msg exclude)
  Keeps-broadcast_to_channel k msg exclude =
      Keeps-same (broadcast_to_channel k msg exclude) (broadcast_to_channel-state k msg exclude)

  -- A bucket changes, or nothing does.
  pub Keeps-take_token :
      (rate : UserSession → RateLimiter) (with_rate : RateLimiter → UserSession → UserSession)
      (sid : ℕ) (now : Clock)
      → ((s : ServerState) (r : RateLimiter) → P s → P (update_session sid (with_rate r) s))
      → Keeps P (take_token rate with_rate sid now)
  unfolding take_token
  Keeps-take_token rate with_rate sid now h = record {
    at = λ s v. elim (Option-cases (lookup sid s.sessions)) [
      | inl gone ↦ rw (take_token, gone) v
      | inr (u, e) ↦ rw (take_token, e) (h s (try_consume (rate u) now).0 v)
    ];
  }
