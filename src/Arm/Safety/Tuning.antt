-- ===== src/Arm/Safety/Tuning.antt =====
-- What a `params/set` does (crates/franka-node/src/arm/params.rs).
use Prim.Native.String.{String}
use franka_rs.Common.{
  ℕ, suc, ◌+◌, ap, ◌≡◌, ◌≢◌, ◌⊎◌, inl, inr, refl, true, false, Option, none, some, arith, Result,
  ok, err, Bool, refuse_if, map_err, ◌>>=◌, ◌>>◌, subst, ◌==◌, sym, ◌∙◌,
}
use franka_rs.Arm.Platform.{Platform}
use franka_rs.Arm.Machine.{
  not_ready, invalid, bad_type, client_not_positive, stale, bad_field, Machine, Origin, Crossing,
  Rejection, ParamsReply, set_accepted, set_refused,
}
use franka_rs.Arm.Params.{
  SetRequest, is_stale, confirmed, at_or_zero, publish_params, accept_params, session_tuning,
  screen_set, store_set, on_stored, set_on, params_set,
}

-- A sequence that succeeds, taken apart
bind_ok :
    {E A B : Type 0} (r : Result E A) (f : A → Result E B) (b : B)
    → (r >>= f) ≡ ok b
    → (a : A) × (r ≡ ok a) × (f a ≡ ok b)
bind_ok (ok a) f b h = (a, refl, h)
bind_ok (err e) f b h = absurd (ground (arith, h))

map_err_ok : {E G A : Type 0} (f : E → G) (r : Result E A) (a : A) → map_err f r ≡ ok a → r ≡ ok a
map_err_ok f (ok x) a h = ground arith
map_err_ok f (err e) a h = absurd (ground (arith, h))

refuse_if_ok : {E : Type 0} (c : Bool) (e : E) (a : Unit {0}) → refuse_if c e ≡ ok a → c ≡ false
refuse_if_ok true e a h = absurd (ground (arith, h))
refuse_if_ok false e a h = refl

ok_same : {E A : Type 0} (a b : A) → ◌≡◌ {A = Result E A} (ok a) (ok b) → a ≡ b
ok_same a b h = ground (arith, h)

client_there : (n : ℕ) → (n == 0) ≡ false → n ≢ 0
client_there n h e = absurd (ground (arith, h, e))

module _ {pf : Platform} where
  confirmed_ok : (o : Option String) (a : Unit {0}) → confirmed {pf = pf} o ≡ ok a → o ≡ none
  confirmed_ok none a h = refl
  confirmed_ok (some name) a h = absurd (ground (arith, h))

  -- The request was decoded, comes from a client, and names no version but the one in force; a session
  -- runs with the tuning `in_force`, to which the update applies, and what of it needs a confirmation is
  -- confirmed.
  abbrev pub Screened :
      Machine pf
      → Result (Unit {0}) (SetRequest pf)
      → SetRequest pf
      → pf.Handle
      → pf.Tuning
      → pf.Update
      → Type 0
  Screened m payload request control in_force update =
      (payload ≡ ok request)
      × (request.client ≢ 0)
      × (m.control ≡ some control)
      × (pf.tuning_of control m.world ≡ ok in_force)
      × (is_stale request.base_version m.params.version ≡ false)
      × (request.update ≡ ok update)
      × ((scratch : pf.Tuning) × (pf.apply_update in_force update ≡ ok scratch)
          × (pf.unconfirmed in_force scratch request.confirm ≡ none))

  -- The session took the update, and has `stored` since. It is the reply, with the one version more, by
  -- the client, and on its way from what was in force.
  abbrev pub Moved :
      Machine pf
      → SetRequest pf
      → pf.Handle
      → pf.Tuning
      → pf.Update
      → Machine pf × ParamsReply pf
      → Type 0
  Moved m request control in_force update r =
      (stored : pf.Tuning) × (o : Origin) × (c : Crossing pf) × ((pf.tune control update m.world).0
        ≡ ok tt)
      × (pf.tuning_of control (pf.tune control update m.world).1 ≡ ok stored)
      × (r.1 ≡ set_accepted (suc m.params.version) stored)
      × (r.0.params.version ≡ suc m.params.version)
      × (r.0.params.origin ≡ some o)
      × (o.version ≡ suc m.params.version)
      × (o.by ≡ request.client)
      × (r.0.params.crossing ≡ some c)
      × (c.from ≡ in_force)
      × (c.to ≡ stored)

  -- The session refused the update, or did not say what it has then; of the machine, all is as it was but
  -- what the session's call did.
  abbrev pub Failed : Machine pf → pf.Handle → pf.Update → Machine pf × ParamsReply pf → Type 0
  Failed m control update r =
      (why : Rejection pf) × (e : pf.Fault) × (r ≡ (
        record m { world = (pf.tune control update m.world).1 },
        set_refused why m.params.version,
      ))
      × ((((pf.tune control update m.world).0 ≡ err e) × (why ≡ invalid e))
          ⊎ (((pf.tune control update m.world).0 ≡ ok tt)
              × (pf.tuning_of control (pf.tune control update m.world).1 ≡ err e)
              × (why ≡ not_ready e)))

  screen_set-Screened :
      (m : Machine pf) (payload : Result (Unit {0}) (SetRequest pf)) (request : SetRequest pf)
      (t : pf.Tuning) (u : pf.Update) (control : pf.Handle)
      → screen_set m payload ≡ ok (request, t, u)
      → m.control ≡ some control
      → Screened m payload request control t u
  unfolding screen_set session_tuning
  screen_set-Screened m payload request t u control h k =
      let (r, p1, h1) = bind_ok (map_err (λ _. bad_type) payload) _ (request, t, u) h in
      let (a, p2, h2) =
        bind_ok (refuse_if (r.client == 0) client_not_positive) _ (request, t, u) h1 in
      let (t', p3, h3) = bind_ok (session_tuning m.control m.world) _ (request, t, u) h2 in
      let (c, p4, h4) =
        bind_ok
          (refuse_if (is_stale r.base_version m.params.version)
            (stale (at_or_zero r.base_version) m.params.version))
          _ (request, t, u) h3 in
      let (u', p5, h5) = bind_ok (map_err bad_field r.update) _ (request, t, u) h4 in
      let (scratch, p6, h6) =
        bind_ok (map_err invalid (pf.apply_update t' u')) _ (request, t, u) h5 in
      let (d, p7, h7) =
        bind_ok (confirmed (pf.unconfirmed t' scratch r.confirm)) (λ _. ok (r, t', u'))
          (request, t, u) h6 in
      let there : Screened m payload r control t' u' = (
        map_err_ok (λ _. bad_type) payload r p1,
        client_there r.client (refuse_if_ok (r.client == 0) _ a p2),
        k,
        map_err_ok not_ready (pf.tuning_of control m.world) t'
            (sym (ap (λ o. session_tuning o m.world) k) ∙ p3),
        refuse_if_ok (is_stale r.base_version m.params.version) _ c p4,
        map_err_ok bad_field r.update u' p5,
        (
          scratch,
          map_err_ok invalid (pf.apply_update t' u') scratch p6,
          confirmed_ok (pf.unconfirmed t' scratch r.confirm) d p7,
        ),
      ) in
      subst (λ (x : SetRequest pf × pf.Tuning × pf.Update). Screened m payload x.0 control x.1 x.2)
        (ok_same (r, t', u') (request, t, u) h7) there

  -- The machine after the session's call
  abbrev asked_session : pf.Handle → pf.Update → Machine pf → Machine pf
  asked_session control u m = record m { world = (pf.tune control u m.world).1 }

  store_set-answers :
      (request : SetRequest pf) (t : pf.Tuning) (u : pf.Update) (control : pf.Handle)
      (m : Machine pf) (tuned : Result pf.Fault (Unit {0})) (read : Result pf.Fault pf.Tuning)
      → (pf.tune control u m.world).0 ≡ tuned
      → pf.tuning_of control (pf.tune control u m.world).1 ≡ read
      → store_set (request, t, u) control m
        ≡ on_stored
            (map_err invalid tuned >> map_err not_ready read)
            request
            t
            (asked_session control u m)
  unfolding store_set
  store_set-answers request t u control m tuned read p q =
      let after = asked_session control u m in
      ap
        (λ x.
          on_stored (map_err invalid x >> map_err not_ready (pf.tuning_of control after.world))
            request t after)
        p
      ∙ ap (λ y. on_stored (map_err invalid tuned >> map_err not_ready y) request t after) q

  on_stored-Moved :
      (request : SetRequest pf) (t stored : pf.Tuning) (u : pf.Update) (control : pf.Handle)
      (m : Machine pf)
      → (pf.tune control u m.world).0 ≡ ok tt
      → pf.tuning_of control (pf.tune control u m.world).1 ≡ ok stored
      → Moved m request control t u (on_stored (ok stored) request t (asked_session control u m))
  unfolding on_stored accept_params publish_params
  on_stored-Moved request t stored u control m p q =
      let v : m.params.version + 1 ≡ suc m.params.version = omega arith in
      (stored, _, _, p, q, ap (λ n. set_accepted n stored) v, v, refl, v, refl, refl, refl, refl)

  store_set-outcome :
      (request : SetRequest pf) (t : pf.Tuning) (u : pf.Update) (control : pf.Handle)
      (m : Machine pf) (tuned : Result pf.Fault (Unit {0})) (read : Result pf.Fault pf.Tuning)
      → (pf.tune control u m.world).0 ≡ tuned
      → pf.tuning_of control (pf.tune control u m.world).1 ≡ read
      → Failed m control u (store_set (request, t, u) control m)
        ⊎ Moved m request control t u (store_set (request, t, u) control m)
  unfolding on_stored
  store_set-outcome request t u control m (err e) read p q =
      inl (invalid e, e, store_set-answers request t u control m (err e) read p q, inl (p, refl))
  store_set-outcome request t u control m (ok tt) (err e) p q = inl (
    not_ready e,
    e,
    store_set-answers request t u control m (ok tt) (err e) p q,
    inr (p, q, refl),
  )
  store_set-outcome request t u control m (ok tt) (ok stored) p q = inr (
      subst (Moved m request control t u)
        (sym (store_set-answers request t u control m (ok tt) (ok stored) p q))
        (on_stored-Moved request t stored u control m p q))

  -- What passes the screen has a session.
  session_there :
      (m : Machine pf) (payload : Result (Unit {0}) (SetRequest pf))
      (a : SetRequest pf × pf.Tuning × pf.Update)
      → screen_set m payload ≡ ok a
      → m.control ≢ none
  unfolding screen_set session_tuning
  session_there m payload a h k =
      let (r, p1, h1) = bind_ok (map_err (λ _. bad_type) payload) _ a h in
      let (x, p2, h2) = bind_ok (refuse_if (r.client == 0) client_not_positive) _ a h1 in
      let (t, p3, h3) = bind_ok (session_tuning m.control m.world) _ a h2 in
      let none_there : session_tuning {pf = pf} none m.world ≡ ok t =
        ap (λ o. session_tuning o m.world) (sym k) ∙ p3 in
      absurd (ground arith)

  set_on-outcome :
      (m : Machine pf) (payload : Result (Unit {0}) (SetRequest pf))
      (r : Result (Rejection pf) (SetRequest pf × pf.Tuning × pf.Update)) (c : Option pf.Handle)
      → screen_set m payload ≡ r
      → m.control ≡ c
      → ((why : Rejection pf) × (r ≡ err why)
          × (set_on r c m ≡ (m, set_refused why m.params.version)))
        ⊎ ((request : SetRequest pf) × (control : pf.Handle) × (in_force : pf.Tuning)
            × (update : pf.Update) × Screened m payload request control in_force update
            × (Failed m control update (set_on r c m)
                ⊎ Moved m request control in_force update (set_on r c m)))
  unfolding set_on
  set_on-outcome m payload (err e) c h k = inl (e, refl, refl)
  set_on-outcome m payload (ok (request, t, u)) none h k =
      absurd (session_there m payload (request, t, u) h k)
  set_on-outcome m payload (ok (request, t, u)) (some control) h k = inr (
    request,
    control,
    t,
    u,
    screen_set-Screened m payload request t u control h k,
    store_set-outcome request t u control m _ _ refl refl,
  )

  -- A `params/set` that is refused before the session is asked changes nothing at all, and the reply
  -- has the reason. Otherwise it was decoded, comes from a client other than 0, names no version but
  -- the one in force, a session runs, its update applies to the tuning in force there, and what needs
  -- a confirmation is confirmed. Then the session refuses it, or does not say what it has stored, and
  -- but for what that call did to the session nothing changes; or what it has stored is the reply,
  -- the version goes up by one, the origin names the client and the new version, and the change under
  -- way is from the tuning that was in force to the one that is stored.
  pub params_set-outcome :
      (m : Machine pf) (payload : Result (Unit {0}) (SetRequest pf))
      → ((why : Rejection pf) × (screen_set m payload ≡ err why)
          × (params_set m payload ≡ (m, set_refused why m.params.version)))
        ⊎ ((request : SetRequest pf) × (control : pf.Handle) × (in_force : pf.Tuning)
            × (update : pf.Update) × Screened m payload request control in_force update
            × (Failed m control update (params_set m payload)
                ⊎ Moved m request control in_force update (params_set m payload)))
  unfolding params_set
  params_set-outcome m payload = set_on-outcome m payload (screen_set m payload) m.control refl refl
