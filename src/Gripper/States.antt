-- ===== src/Gripper/States.antt =====
-- The states that the hand's client reads (crates/franka-rs/src/gripper/mod.rs).
use franka_rs.Common.{
  ℕ, ◌^◌, ◌<◌, ◌==◌, ◌≡◌, refl, ap, arith, not, Bool, List, [], ◌∷◌, ◌++◌, map, length, length-take,
  take, ◌∙◌, ok, err,
}
use franka_rs.Wire.{to_le_bytes, from_le_bytes}
use franka_rs.Gripper.{
  GripperState, drain_udp, gripper_state_of, receive_buffer, after_drain, object_size, read_once,
}

from_le-to_le8 : (n : ℕ) → n < 2 ^ 64 → from_le_bytes (to_le_bytes 8 n) ≡ n
unfolding to_le_bytes from_le_bytes
from_le-to_le8 n h = omega arith

from_le-to_le4 : (n : ℕ) → n < 2 ^ 32 → from_le_bytes (to_le_bytes 4 n) ≡ n
unfolding to_le_bytes from_le_bytes
from_le-to_le4 n h = omega arith

from_le-to_le2 : (n : ℕ) → n < 2 ^ 16 → from_le_bytes (to_le_bytes 2 n) ≡ n
unfolding to_le_bytes from_le_bytes
from_le-to_le2 n h = omega arith

-- The bytes of a state as the hand sends it (`GripperState` of wire/gripper.rs)
abbrev pub state_bytes : (message_id width max_width grasped temperature : ℕ) → List ℕ
state_bytes m w x g t =
    to_le_bytes 4 m
    ++ (to_le_bytes 8 w ++ (to_le_bytes 8 x ++ (to_le_bytes 1 g ++ to_le_bytes 2 t)))

drain_udp-ok : {E : Type 0} (olds : List (List ℕ)) → drain_udp {E = E} (map ok olds) ≡ ok tt
unfolding drain_udp
drain_udp-ok [] = refl
drain_udp-ok (old ∷ olds) = drain_udp-ok olds

five :
    (w w' x x' t t' m m' : ℕ) (g g' : Bool)
    → w ≡ w'
    → x ≡ x'
    → g ≡ g'
    → t ≡ t'
    → m ≡ m'
    → ◌≡◌ {A = GripperState}
        (record { width = w; max_width = x; is_grasped = g; temperature = t; time = m })
        (record { width = w'; max_width = x'; is_grasped = g'; temperature = t'; time = m' })
five w w' x x' t t' m m' g g' a b c d e = cc

gripper_state_of-state_bytes :
    (m w x g t : ℕ)
    → m < 2 ^ 32
    → w < 2 ^ 64
    → x < 2 ^ 64
    → g < 2 ^ 8
    → t < 2 ^ 16
    → gripper_state_of (state_bytes m w x g t)
      ≡ record { width = w; max_width = x; is_grasped = not (g == 0); temperature = t; time = m }
unfolding gripper_state_of to_le_bytes from_le_bytes
gripper_state_of-state_bytes m w x g t hm hw hx hg ht =
    five _ w _ x _ t _ m _ (not (g == 0)) (from_le-to_le8 w hw) (from_le-to_le8 x hx)
      (ap (λ v. not (v == 0)) (omega arith)) (from_le-to_le2 t ht) (from_le-to_le4 m hm)

take-state_bytes :
    (m w x g t : ℕ) (rest : List ℕ)
    → take 23 (state_bytes m w x g t ++ rest) ≡ state_bytes m w x g t
unfolding to_le_bytes
take-state_bytes m w x g t rest = refl

length-state_bytes : (m w x g t : ℕ) → length (state_bytes m w x g t) ≡ 23
unfolding to_le_bytes
length-state_bytes m w x g t = omega arith

after_drain-long :
    {E : Type 0} (datagram buf : List ℕ)
    → take 23 datagram ≡ buf
    → length buf ≡ 23
    → after_drain {E = E} (ok tt) (ok datagram) ≡ ok (gripper_state_of buf)
unfolding after_drain receive_buffer
after_drain-long datagram buf e l = ground arith

after_drain-short :
    {E : Type 0} (datagram : List ℕ)
    → length datagram < 23
    → after_drain {E = E} (ok tt) (ok datagram) ≡ err object_size
unfolding after_drain receive_buffer
after_drain-short datagram l = ground (arith, length-take 23 datagram)

-- Whatever datagrams are queued, and as long as the socket works, `read_once` drops them and returns
-- the fields of the state at the front of the one that arrives next, the message's number as the
-- time: a datagram that is longer than a state is cut off, and one that is shorter is an error.
pub read_once-fresh :
    {E : Type 0} (olds : List (List ℕ)) (m w x g t : ℕ) (rest : List ℕ)
    → m < 2 ^ 32
    → w < 2 ^ 64
    → x < 2 ^ 64
    → g < 2 ^ 8
    → t < 2 ^ 16
    → (read_once {E = E} (map ok olds) (ok (state_bytes m w x g t ++ rest))
        ≡ ok (record {
          width = w;
          max_width = x;
          is_grasped = not (g == 0);
          temperature = t;
          time = m;
        }))
      × ((datagram : List ℕ)
          → length datagram < 23
          → read_once {E = E} (map ok olds) (ok datagram) ≡ err object_size)
unfolding read_once
read_once-fresh {E} olds m w x g t rest hm hw hx hg ht =
    let drained =
      λ (datagram : List ℕ). ap (λ d. after_drain {E = E} d (ok datagram)) (drain_udp-ok olds) in
    let state = state_bytes m w x g t in
    (
      drained (state ++ rest)
          ∙ after_drain-long (state ++ rest) state (take-state_bytes m w x g t rest)
              (length-state_bytes m w x g t)
          ∙ ap ok (gripper_state_of-state_bytes m w x g t hm hw hx hg ht),
      λ datagram l. drained datagram ∙ after_drain-short datagram l,
    )
