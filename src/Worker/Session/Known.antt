-- ===== src/Worker/Session/Known.antt =====
-- A worker that reaches the scheduler.
use chronos_dev.Common.{
  ℤ, String, true, List, [], ◌∷◌, ◌++◌, Option, none, some, ◌≡◌, refl, sym, subst, ap, ◌∙◌, ◌⊎◌,
  inl, inr, lookup, All, Error, int32,
}
use chronos_dev.Domain.Worker.{Worker, healthy}
use chronos_dev.Auth.{Authenticator, valid_worker_token}
use chronos_dev.Scheduler.State.{Service, Env}
use chronos_dev.Scheduler.Fleet.{registered, refreshed}
use chronos_dev.Scheduler.Grpc.{worker_of, register_call, heartbeat_call}
use chronos_dev.Scheduler.Gate.{register-with_worker, connected, heartbeat-known}
use chronos_dev.Worker.{Node, register_request}
use chronos_dev.Worker.Cancels.{cancel_each-kept}
use chronos_dev.Worker.Session.{
  CallFate, served, request_lost, reply_lost, Link, registering, beating, World, Turn, timer,
  stopped, dialled, dial_scheduler, begin_if, try_register, send_heartbeat, on_timer, session_turn,
  session, new_session,
}

-- The scheduler has the worker as one that is healthy.
abbrev pub IsHealthy : String → Service → Type 0
IsHealthy id s = (x : Worker) × (lookup id s.workers ≡ some x) × (x.status ≡ healthy) × (x.id ≡ id)

-- A dial that fails, at the connection or at the call.
abbrev pub IsFailing : Turn → Type 0
IsFailing (timer meanwhile env reach l) =
    ((e : Error) × (l.dial_error ≡ some e))
    ⊎ ((e : Error) × ((l.reach ≡ request_lost e) ⊎ (l.reach ≡ reply_lost e)))
IsFailing (stopped reach) = ⊥

-- A dial that is served, where the scheduler reaches the worker too.
abbrev pub IsServedDial : Turn → Type 0
IsServedDial (timer meanwhile env reach l) =
    (l.dial_error ≡ none) × (l.reach ≡ served) × (l.back_error ≡ none)
IsServedDial (stopped reach) = ⊥

-- A heartbeat that is served, before which nothing removes the worker.
abbrev pub IsServedBeat : String → Turn → Type 0
IsServedBeat id (timer meanwhile env reach l) =
    (reach ≡ served) × ((s : Service) → IsHealthy id s → IsHealthy id (meanwhile s))
IsServedBeat id (stopped reach) = ⊥

module _ (auth : Authenticator) (print : Error → String) (node : Node) where
  record IsTrying (w : World) : Type 0 where
    same : w.node ≡ node
    is_registering : w.phase ≡ registering

  dialled-lost :
      (o : Option Error) (r : CallFate) (l : Link) (w : World)
      → l.reach ≡ r
      → ((e : Error) × (o ≡ some e)) ⊎ ((e : Error) × ((r ≡ request_lost e) ⊎ (r ≡ reply_lost e)))
      → IsTrying w
      → IsTrying (begin_if auth print (dialled auth print o l w))
  dialled-lost (some e) r l w q f h = h
  dialled-lost none served l w q (inl f) h = absurd (cc)
  dialled-lost none served l w q (inr (e, inl f)) h = absurd (cc)
  dialled-lost none served l w q (inr (e, inr f)) h = absurd (cc)
  dialled-lost none (request_lost e) l w q f h =
      rw q (record { same = h.same; is_registering = h.is_registering })
  dialled-lost none (reply_lost e) l w q f h =
      rw q (record { same = h.same; is_registering = h.is_registering })

  failing-IsTrying :
      (t : Turn) (w : World) → IsFailing t → IsTrying w → IsTrying (session_turn auth print t w)
  unfolding session_turn on_timer try_register dial_scheduler
  failing-IsTrying (stopped reach) w f h = absurd f
  failing-IsTrying (timer meanwhile env reach l) w f h =
      let w' : World = record w { service = meanwhile w.service } in
      subst (λ p. IsTrying (on_timer auth print p env reach l w')) (sym h.is_registering)
        (dialled-lost l.dial_error l.reach l w' refl f
          (record { same = h.same; is_registering = h.is_registering }))

  -- The worker is registered, and its session sends heartbeats.
  record IsKnown (w : World) : Type 0 where
    name : w.node.cfg ≡ node.cfg
    token : w.node.token ≡ node.token
    is_beating : w.phase ≡ beating
    known : IsHealthy node.cfg.id w.service

  module _ (accepted : valid_worker_token auth node.token ≡ true) where
    registered-IsHealthy :
        (env : Env) (n : Node) (s : Service)
        → n ≡ node
        → IsHealthy node.cfg.id (register_call auth print env none (register_request n) s).0
    unfolding register_request registered worker_of
    registered-IsHealthy env n s same =
        let n' = node in
        let w = registered env.now (worker_of (register_request n')) in
        let reply = register-with_worker auth print env (register_request n') s accepted in
        subst
          (λ m. IsHealthy node.cfg.id (register_call auth print env none (register_request m) s).0)
          (sym same)
          (w, ap (λ r. lookup node.cfg.id r.0.workers) reply ∙ connected env w s, refl, refl)

    served-IsKnown :
        (t : Turn) (w : World) → IsServedDial t → IsTrying w → IsKnown (session_turn auth print t w)
    unfolding session_turn on_timer try_register dial_scheduler register_request
    served-IsKnown (stopped reach) w f h = absurd f
    served-IsKnown (timer meanwhile env reach l) w f h =
        let accepted' = subst (λ n. valid_worker_token auth n.token ≡ true) (sym h.same) accepted in
        let s = meanwhile w.service in
        let reply = register-with_worker auth print l.env (register_request w.node) s accepted' in
        rw (h.is_registering, f.0, f.1, f.2, reply)
          (record {
            name = ap (λ n. n.cfg) h.same;
            token = ap (λ n. n.token) h.same;
            is_beating = refl;
            known =
                subst (λ r. IsHealthy node.cfg.id r.0) reply
                  (registered-IsHealthy l.env w.node s h.same);
          })

    heartbeat-IsHealthy :
        (env : Env) (token : String) (active capacity : ℤ) (s : Service)
        → valid_worker_token auth token ≡ true
        → IsHealthy node.cfg.id s
        → IsHealthy node.cfg.id (heartbeat_call auth env token node.cfg.id active capacity s).0
    unfolding refreshed
    heartbeat-IsHealthy env token active capacity s valid (x, found, status, named) =
        let seen =
          heartbeat-known auth env token node.cfg.id active capacity s x valid found named in
        (refreshed env.now active capacity x, seen.0, refl, named)

    beat-IsKnown :
        (env : Env) (l : Link) (w : World)
        → IsKnown w
        → IsKnown (send_heartbeat auth print env served l w)
    unfolding send_heartbeat
    beat-IsKnown env l w h =
        let n = w.node in
        let valid = subst (λ t. valid_worker_token auth t ≡ true) (sym h.token) accepted in
        let reply =
          heartbeat_call auth env n.token n.cfg.id n.active (int32 n.cfg.capacity) w.service in
        record {
          name = (cancel_each-kept reply.1.cancel_job_ids n).0 ∙ h.name;
          token = (cancel_each-kept reply.1.cancel_job_ids n).1 ∙ h.token;
          is_beating = h.is_beating;
          known =
              subst
                (λ id.
                  IsHealthy node.cfg.id
                    (heartbeat_call auth env n.token id n.active (int32 n.cfg.capacity)
                      w.service).0)
                (sym (ap (λ c. c.id) h.name))
                (heartbeat-IsHealthy env n.token n.active (int32 n.cfg.capacity) w.service valid
                  h.known);
        }

    beats-IsKnown :
        (beats : List Turn) (w : World)
        → All (IsServedBeat node.cfg.id) beats
        → IsKnown w
        → IsKnown (session auth print beats w)
    unfolding session session_turn on_timer
    beats-IsKnown [] w f h = h
    beats-IsKnown (stopped reach ∷ beats) w f h = absurd f.0
    beats-IsKnown (timer meanwhile env reach l ∷ beats) w f h =
        let w' : World = record w { service = meanwhile w.service } in
        let known : IsKnown w' = record {
          name = h.name;
          token = h.token;
          is_beating = h.is_beating;
          known = f.0.1 w.service h.known;
        } in
        beats-IsKnown beats _ f.1 (
          subst (λ p. IsKnown (on_timer auth print p env reach l w')) (sym h.is_beating)
            (subst (λ r. IsKnown (send_heartbeat auth print env r l w')) (sym f.0.0)
              (beat-IsKnown env l w' known)))

    tries-IsKnown :
        (tries : List Turn) (good : Turn) (beats : List Turn) (w : World)
        → All IsFailing tries
        → IsServedDial good
        → All (IsServedBeat node.cfg.id) beats
        → IsTrying w
        → IsKnown (session auth print (tries ++ (good ∷ beats)) w)
    unfolding session
    tries-IsKnown [] good beats w f g b h = beats-IsKnown beats _ b (served-IsKnown good w g h)
    tries-IsKnown (t ∷ tries) good beats w f g b h =
        tries-IsKnown tries good beats (session_turn auth print t w) f.1 g b
          (failing-IsTrying t w f.0 h)

-- A node whose token the scheduler accepts starts its session. After any number of dials that fail, at the connection
-- or because a request or a reply is lost, a dial is served; then any number of heartbeats are served, between which
-- nothing takes the worker from the scheduler. In the end the session sends heartbeats and the scheduler has the
-- worker as a healthy one.
pub session-IsHealthy :
    (auth : Authenticator) (print : Error → String) (node : Node) (s : Service) (tries : List Turn)
    (good : Turn) (beats : List Turn)
    → valid_worker_token auth node.token ≡ true
    → All IsFailing tries
    → IsServedDial good
    → All (IsServedBeat node.cfg.id) beats
    → let w = session auth print (tries ++ (good ∷ beats)) (new_session node s) in
      (w.phase ≡ beating) × IsHealthy node.cfg.id w.service
unfolding new_session
session-IsHealthy auth print node s tries good beats accepted f g b =
    let h =
      tries-IsKnown auth print node accepted tries good beats (new_session node s) f g b
        (record { same = refl; is_registering = refl }) in
    (h.is_beating, h.known)
