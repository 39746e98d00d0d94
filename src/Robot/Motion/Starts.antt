-- ===== src/Robot/Motion/Starts.antt =====
-- How a motion starts (crates/franka-rs/src/robot/robot_impl/motion.rs, `start_motion`).
use franka_rs.Common.{
  ℕ, ◌+◌, ◌%◌, ◌^◌, zero, suc, ◌≡◌, Bool, false, ◌||◌, some, List, ◌∷◌, ok, refl, ap, sym, subst,
  ◌∙◌, arith,
}
use franka_rs.Robot.Codec.Versions.{FciVersion, v5, v10, move, command_id}
use franka_rs.Robot.Codec.Statuses.{MoveStatus}
use franka_rs.Robot.Codec.Encode.{move_request}
use franka_rs.Robot.Modes.{MoveController, MoveGenerator, asked_generator, asked_controller}
use franka_rs.Robot.Responses.{wire_command, move_status, handled, handle_move_response}
use franka_rs.Robot.Session.{
  Session, Sent, requested, awaited, polled, Outcome, ◌>>=◌, of_result, give,
  motion_generator_running, controller_running, move_active,
}
use franka_rs.Robot.Session.Monad.{Ran, bind_done}
use franka_rs.Robot.Session.Socket.{send_request, blocking_receive_response, try_receive_response}
use franka_rs.Robot.Motion.Cycle.{rounds, flush_log}
use franka_rs.Robot.Motion.Start.{
  ask_modes, on_polled, await_start, spun, spins, started_with, answered_with, requested_as,
  numbered, encoded, start_motion,
}
use franka_rs.Robot.Motion.Loops.{until_keeps}
use franka_rs.Robot.Motion.Said.{
  Same, taken, asked, request_sent, response_awaited, response_polled, flush_log-Same, status_same,
  Same-of, polled_round,
}

-- The reply to a motion, asked for `k` times
abbrev pub polls : ℕ → ℕ → List Sent → List Sent
polls zero id said = said
polls (suc k) id said = polled id ∷ polls k id said

round_polls :
    (id : ℕ) (a b : Bool) (s t : Session)
    → Ran (await_start id a) s b t
    → Same (polled id ∷ s.sent) s t
unfolding await_start
round_polls id a b s t h =
    let (o, u, p, q) = bind_done (try_receive_response id) on_polled s b t h in
    let one = response_polled s u id o p in
    let rest = polled_round o u t b q in
    (rest.0 ∙ one.0, rest.1 ∙ one.1, rest.2 ∙ one.2, rest.3 ∙ one.3)

abbrev Polled : ℕ → Session → Session → Type 0
Polled id s t = (k : ℕ) × Same (polls k id s.sent) s t

spins-Polled : (id : ℕ) (s t : Session) (b : Bool) → Ran (spins id) s b t → Polled id s t
spins-Polled id s t b h =
    until_keeps (λ broke u. broke || move_active u) (await_start id) (λ _ u. Polled id s u)
      (λ a u c v w r.
        let (k, (said, generator, controller, next)) = w in
        let (more, g, m, n) = round_polls id a c u v r in
        (suc k, (more ∙ ap (λ l. polled id ∷ l) said, g ∙ generator, m ∙ controller, n ∙ next)))
      (rounds s) false s b t (0, (refl, refl, refl, refl)) h

-- What a motion that has started was: allowed, and asked for once, under the session's next id.
abbrev pub Started :
    MoveController → MoveGenerator → List ℕ → List ℕ → ℕ → Session → Session → Type 0
Started controller generator path goal id s t =
    (motion_generator_running s ≡ false)
    × (controller_running s ≡ false)
    × (id ≡ s.next_command_id)
    × (t.next_command_id ≡ (s.next_command_id + 1) % 2 ^ 32)
    × (t.current_generator ≡ asked_generator generator)
    × (t.current_controller ≡ asked_controller controller)
    × ((k : ℕ) × (request : List ℕ) × (move_request s.version controller generator path goal
          ≡ ok request)
        × (t.sent ≡ polls k id (awaited id ∷ requested 1 id request ∷ s.sent)))

move_id : (v : FciVersion) → command_id v move ≡ some 1
unfolding command_id
move_id v5 = refl
move_id v10 = refl

move_number :
    (s t : Session) (number : ℕ)
    → Ran (λ s. of_result (wire_command move s) s) s number t
    → (number ≡ 1) × (t ≡ s)
unfolding wire_command
move_number s t number h = let e = move_id s.version in ground (arith, e)

-- What follows the answer to the request, with what was said before the polls.
spun-Same : (id i : ℕ) (s t : Session) → Ran (spun id) s i t → (i ≡ id) × Same s.sent s t
spun-Same id i s t h =
    let (l, u, p, q) = bind_done flush_log (λ _. give id) s i t h in
    (
      ground arith,
      subst (Same s.sent s) (ap (λ (r : Outcome ℕ × Session). r.1) q) (flush_log-Same s u l p),
    )

started_polls :
    (id i : ℕ) (status : MoveStatus) (s t : Session)
    → Ran (started_with id status) s i t
    → (i ≡ id) × Polled id s t
started_polls id i status s t h =
    let (x, s1, p1, h1) =
      bind_done (handled (handle_move_response status)) (λ _. spins id >>= λ _. spun id) s i t h in
    let (b, s2, p2, h2) = bind_done (spins id) (λ _. spun id) s1 i t h1 in
    let (own, flushed) = spun-Same id i s2 t h2 in
    let (k, said) = spins-Polled id s1 s2 b p2 in
    let (_, same) = taken (handle_move_response status s) s s1 x p1 in
    (
      own,
      subst (λ (u : Session). Polled id u t) same
          (k, (flushed.0 ∙ said.0, flushed.1 ∙ said.1, flushed.2 ∙ said.2, flushed.3 ∙ said.3)),
    )

requested_polls :
    (id i : ℕ) (s t : Session)
    → Ran (requested_as id) s i t
    → (i ≡ id) × ((k : ℕ) × Same (polls k id (awaited id ∷ s.sent)) s t)
requested_polls id i s t h =
    let (message, s1, p1, h1) =
      bind_done (blocking_receive_response id) (answered_with id) s i t h in
    let (status, s2, p2, h2) = bind_done (move_status message) (started_with id) s1 i t h1 in
    let (own, (k, said)) = started_polls id i status s2 t h2 in
    let first = response_awaited s s1 id message p1 in
    let same = status_same message s1 s2 status p2 in
    let (sent, generator, controller, next) = Same-of s1 s2 same in
    (
      own,
      (
        k,
        (
          said.0 ∙ ap (polls k id) (sent ∙ first.0),
          said.1 ∙ (generator ∙ first.1),
          said.2 ∙ (controller ∙ first.2),
          said.3 ∙ (next ∙ first.3),
        ),
      ),
    )

start_trace :
    (k id own number : ℕ) (request : List ℕ) (s s2 s3 s4 t : Session)
    → s2 ≡ s
    → number ≡ 1
    → id ≡ own
    → own ≡ s3.next_command_id
    → s3.sent ≡ s2.sent
    → s4.sent ≡ requested number s3.next_command_id request ∷ s3.sent
    → t.sent ≡ polls k own (awaited own ∷ s4.sent)
    → t.sent ≡ polls k id (awaited id ∷ requested 1 id request ∷ s.sent)
start_trace k id own number request s s2 s3 s4 t e one same fresh said said4 said5 = cc

-- A motion starts only where nothing of the client runs. Where the call succeeds, the modes that it
-- asked for are kept, and one `Move`, encoded for the version, went out under the session's next id, which is
-- returned and counted up; its answer was awaited before further replies to it were asked for, and no command went
-- out.
pub start_motion-Started :
    (controller : MoveController) (generator : MoveGenerator) (path goal : List ℕ) (id : ℕ)
    (s t : Session)
    → Ran (start_motion controller generator path goal) s id t
    → Started controller generator path goal id s t
unfolding start_motion
start_motion-Started controller generator path goal id s t h =
    let (request, s1, p1, h1) =
      bind_done (λ s. of_result (move_request s.version controller generator path goal) s)
        (encoded controller generator) s id t h in
    let (number, s2, p2, h2) =
      bind_done (λ s. of_result (wire_command move s) s) (numbered controller generator request) s1
        id t h1 in
    let (x, s3, p3, h3) =
      bind_done (ask_modes controller generator) (λ _. send_request number request >>= requested_as)
        s2 id t h2 in
    let (own, s4, p4, h4) = bind_done (send_request number request) requested_as s3 id t h3 in
    let (coded, e1) =
      taken (move_request s.version controller generator path goal) s s1 request p1 in
    let (one, e2) = move_number s1 s2 number p2 in
    let (still, free, said, next, g, c) = asked controller generator s2 s3 x p3 in
    let (fresh, said4, g4, c4, n4) = request_sent s3 s4 number own request p4 in
    let (same_id, (k, (said5, g5, c5, n5))) = requested_polls own id s4 t h4 in
    let e = e2 ∙ e1 in
    let here = next ∙ ap (λ (u : Session). u.next_command_id) e in
    let last = fresh ∙ here in
    (
      ap motion_generator_running (sym e) ∙ still,
      ap controller_running (sym e) ∙ free,
      same_id ∙ last,
      n5 ∙ (n4 ∙ ap (λ n. (n + 1) % 2 ^ 32) here),
      g5 ∙ (g4 ∙ g),
      c5 ∙ (c4 ∙ c),
      (
        k,
        request,
        coded,
        start_trace k id own number request s s2 s3 s4 t e one same_id fresh said said4 said5,
      ),
    )
