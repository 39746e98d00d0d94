-- ===== src/Arm/Params.antt =====
-- The live-tuning surface (crates/franka-node/src/arm/params.rs): `params/current` and the query
-- `params/set`. The JSON of a message (the values, `slewing`, `dirty`, `clamped`) is left out; a
-- payload comes decoded, with the result of `update_of` on its fields.
use Prim.Native.String.{String}
use franka_rs.Common.{
  ℕ, ◌+◌, ◌-◌, Bool, false, not, Option, none, some, List, Result, ok, err, ◌>>=◌, ◌>>◌, refuse_if,
  map_err, leb, ◌==◌, if◌then◌else◌,
}
use franka_rs.Arm.Platform.{Platform}
use franka_rs.Arm.Machine.{
  Machine, ParamsReply, schema, current, set_accepted, set_refused, Rejection, bad_type,
  client_not_positive, no_session, not_ready, stale, invalid, bad_field, needs_confirm,
  params_replied, published_params, emit,
}

-- `CURRENT_PERIOD`, in ns
abbrev pub current_period : ℕ
current_period = 1_000_000_000

pub data ParamsVerb : Type 0 where
  schema_verb get_verb set_verb : ParamsVerb

-- `SetRequest`, with its `params` through `update_of`
pub record SetRequest (pf : Platform) : Type 0 where
  pub client : ℕ
  pub base_version : Option ℕ
  pub confirm : List String
  pub update : Result String pf.Update

-- `request.base_version.is_some_and(|at| at != version)`
abbrev pub is_stale : Option ℕ → ℕ → Bool
is_stale none version = false
is_stale (some at) version = not (at == version)

abbrev pub at_or_zero : Option ℕ → ℕ
at_or_zero none = 0
at_or_zero (some at) = at

module _ {pf : Platform} where
  open pf use {
    now, monotonic_ns, tuning_of, tune, apply_update, unconfirmed, Tuning, Update, Handle, World,
  }

  -- `publish_params`; building the message reads `monotonic_ns`.
  unfoldable pub publish_params : Machine pf → Machine pf
  publish_params m =
      let (t, w) = now m.world in
      let (_, w') = monotonic_ns w in
      let params = record m.params { published_at = some t } in
      emit (published_params params) (record m { world = w'; params = params })

  -- `publish_params_if_due`
  unfoldable pub publish_params_if_due : Machine pf → Machine pf
  unfolding publish_params
  publish_params_if_due m = elim m.params.published_at [
    | none ↦ publish_params m
    | some at ↦
        let (t, w) = now m.world in
        let m' = record m { world = w } in
        if leb current_period (t - at) then publish_params m' else m'
  ]

  -- `params_reseeded`, with `Params::forget`
  unfoldable pub params_reseeded : Machine pf → Machine pf
  unfolding publish_params
  params_reseeded m =
      publish_params (record m { params = record m.params { origin = none; crossing = none } })

  -- `Params::accept`, which reads both clocks
  unfoldable pub accept_params : ℕ → Tuning → Tuning → Machine pf → Machine pf
  accept_params client from to m =
      let version = m.params.version + 1 in
      let (t, w) = monotonic_ns m.world in
      let (u, w') = now w in
      record m {
        world = w';
        params = record m.params {
          version = version;
          origin = some (record { version = version; by = client; at_ns = t });
          crossing = some (record { from = from; to = to; at = u });
        };
      }

  -- `session_tuning`
  unfoldable pub session_tuning : Option Handle → World → Result (Rejection pf) Tuning
  session_tuning none w = err no_session
  session_tuning (some control) w = map_err not_ready (tuning_of control w)

  abbrev pub confirmed : Option String → Result (Rejection pf) (Unit {0})
  confirmed none = ok tt
  confirmed (some name) = err (needs_confirm name)

  -- The part of `apply_set` before anything is stored: the tuning in force and the update.
  unfoldable pub screen_set :
      Machine pf
      → Result (Unit {0}) (SetRequest pf)
      → Result (Rejection pf) (SetRequest pf × Tuning × Update)
  unfolding session_tuning
  screen_set m payload = do
    request ← map_err (λ _. bad_type) payload
    refuse_if (request.client == 0) client_not_positive
    in_force ← session_tuning m.control m.world
    refuse_if (is_stale request.base_version m.params.version)
        (stale (at_or_zero request.base_version) m.params.version)
    update ← map_err bad_field request.update
    scratch ← map_err invalid (apply_update in_force update)
    confirmed (unconfirmed in_force scratch request.confirm)
    ok (request, in_force, update)

  -- What is stored is accepted, or the reason why it is not is the reply.
  unfoldable pub on_stored :
      Result (Rejection pf) Tuning
      → SetRequest pf
      → Tuning
      → Machine pf
      → Machine pf × ParamsReply pf
  unfolding accept_params publish_params
  on_stored (err rejection) request in_force m = (m, set_refused rejection m.params.version)
  on_stored (ok stored) request in_force m =
      let m' = accept_params request.client in_force stored m in
      (publish_params m', set_accepted m'.params.version stored)

  -- The rest of it, on the session's handle.
  unfoldable pub store_set :
      SetRequest pf × Tuning × Update → Handle → Machine pf → Machine pf × ParamsReply pf
  unfolding on_stored
  store_set (request, in_force, update) control m =
      let (tuned, w) = tune control update m.world in
      on_stored (map_err invalid tuned >> map_err not_ready (tuning_of control w)) request in_force
        (record m { world = w })

  unfoldable pub set_on :
      Result (Rejection pf) (SetRequest pf × Tuning × Update)
      → Option Handle
      → Machine pf
      → Machine pf × ParamsReply pf
  unfolding store_set
  set_on (err rejection) control m = (m, set_refused rejection m.params.version)
  set_on (ok request) none m = (m, set_refused no_session m.params.version)
  set_on (ok request) (some control) m = store_set request control m

  -- `params_set`
  unfoldable pub params_set :
      Machine pf → Result (Unit {0}) (SetRequest pf) → Machine pf × ParamsReply pf
  unfolding screen_set set_on
  params_set m payload = set_on (screen_set m payload) m.control m

  -- `params_query`
  unfoldable pub params_query :
      ParamsVerb → Result (Unit {0}) (SetRequest pf) → ℕ → Machine pf → Machine pf
  unfolding params_set
  params_query schema_verb payload reply m = emit (params_replied reply schema) m
  params_query get_verb payload reply m =
      let (_, w) = monotonic_ns m.world in
      emit (params_replied reply (current m.params)) (record m { world = w })
  params_query set_verb payload reply m =
      let (m', answer) = params_set m payload in emit (params_replied reply answer) m'
