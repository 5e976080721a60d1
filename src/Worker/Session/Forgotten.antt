-- ===== src/Worker/Session/Forgotten.antt =====
-- A worker that the scheduler has forgotten.
use chronos_dev.Common.{
  ℤ, String, List, [], ◌∷◌, none, ◌≡◌, refl, sym, subst, ap, ◌∙◌, inl, inr, Bool-cases, lookup, All,
  Error, int32,
}
use chronos_dev.Auth.{Authenticator, valid_worker_token}
use chronos_dev.Scheduler.State.{Service, Env}
use chronos_dev.Scheduler.Fleet.{heartbeat, heartbeat_of}
use chronos_dev.Scheduler.Grpc.{heartbeat_call}
use chronos_dev.Worker.Cancels.{cancel_each-kept}
use chronos_dev.Worker.Session.{
  served, Link, beating, World, Turn, timer, stopped, send_heartbeat, on_timer, session_turn,
  session,
}

-- A tick at which the heartbeat is served, and before which nothing else registers the worker.
abbrev pub IsServedTick : String → Turn → Type 0
IsServedTick id (timer meanwhile env reach l) =
    (reach ≡ served)
    × ((s : Service) → lookup id s.workers ≡ none → lookup id (meanwhile s).workers ≡ none)
IsServedTick id (stopped reach) = ⊥

-- A session that is past its registration, whose worker the scheduler does not know.
pub record IsForgotten (id : String) (w : World) : Type 0 where
  pub named : w.node.cfg.id ≡ id
  pub is_beating : w.phase ≡ beating
  pub unknown : lookup id w.service.workers ≡ none

heartbeat_call-unknown :
    (auth : Authenticator) (env : Env) (token id : String) (active capacity : ℤ) (s : Service)
    → lookup id s.workers ≡ none
    → (heartbeat_call auth env token id active capacity s).0 ≡ s
unfolding heartbeat_call heartbeat heartbeat_of
heartbeat_call-unknown auth env token id active capacity s h =
    elim (Bool-cases (valid_worker_token auth token)) [ inl e ↦ rw (e, h) refl | inr e ↦ rw e refl ]

module _ (auth : Authenticator) (print : Error → String) where
  send_heartbeat-IsForgotten :
      (id : String) (env : Env) (l : Link) (w : World)
      → IsForgotten id w
      → IsForgotten id (send_heartbeat auth print env served l w)
  unfolding send_heartbeat
  send_heartbeat-IsForgotten id env l w h =
      let n = w.node in
      let reply =
        heartbeat_call auth env n.token n.cfg.id n.active (int32 n.cfg.capacity) w.service in
      let here = ap (λ x. lookup x w.service.workers) h.named ∙ h.unknown in
      record {
        named = ap (λ c. c.id) (cancel_each-kept reply.1.cancel_job_ids n).0 ∙ h.named;
        is_beating = h.is_beating;
        unknown =
            ap (λ s. lookup id s.workers)
              (heartbeat_call-unknown auth env n.token n.cfg.id n.active (int32 n.cfg.capacity)
                w.service here)
            ∙ h.unknown;
      }

  session_turn-IsForgotten :
      (id : String) (t : Turn) (w : World)
      → IsServedTick id t
      → IsForgotten id w
      → IsForgotten id (session_turn auth print t w)
  unfolding session_turn on_timer
  session_turn-IsForgotten id (stopped reach) w q h = absurd q
  session_turn-IsForgotten id (timer meanwhile env reach l) w q h =
      let w' : World = record w { service = meanwhile w.service } in
      subst (λ p. IsForgotten id (on_timer auth print p env reach l w')) (sym h.is_beating)
        (subst (λ r. IsForgotten id (send_heartbeat auth print env r l w')) (sym q.0)
          (send_heartbeat-IsForgotten id env l w' (record {
            named = h.named;
            is_beating = h.is_beating;
            unknown = q.1 w.service h.unknown;
          })))

  turns-IsForgotten :
      (id : String) (turns : List Turn) (w : World)
      → All (IsServedTick id) turns
      → IsForgotten id w
      → IsForgotten id (session auth print turns w)
  unfolding session
  turns-IsForgotten id [] w q h = h
  turns-IsForgotten id (t ∷ turns) w q h =
      turns-IsForgotten id turns (session_turn auth print t w) q.1
        (session_turn-IsForgotten id t w q.0 h)

-- A worker's session is past its registration, and the scheduler does not know the worker, as after a restart of the
-- scheduler or once the worker was given up as lost. However many heartbeats the scheduler serves from then on, and
-- whatever else happens to it that does not register the worker, the session goes on with heartbeats and never
-- registers again: the scheduler still does not know the worker.
pub session-IsForgotten :
    (auth : Authenticator) (print : Error → String) (id : String) (turns : List Turn) (w : World)
    → All (IsServedTick id) turns
    → IsForgotten id w
    → IsForgotten id (session auth print turns w)
session-IsForgotten auth print id turns w q h = turns-IsForgotten auth print id turns w q h
