-- ===== src/Tcp/Claims.antt =====
-- Claiming a filed message by its id (crates/franka-rs/src/network/tcp.rs).
use franka_rs.Common.{ℕ, ◌≡◌, ◌≢◌, refl, ap, ◌∙◌, none, some, List, [], ◌∷◌, arith, All}
use franka_rs.Tcp.{Demux, map_insert, map_remove, map_get, claim}
use franka_rs.Tcp.Passes.{file_all}

-- No message of the list has the id.
abbrev pub Without : ℕ → List (ℕ × List ℕ) → Type 0
Without id ms = All (λ m. m.0 ≢ id) ms

get-remove : (id : ℕ) (filed : List (ℕ × List ℕ)) → map_get id (map_remove id filed) ≡ none
unfolding map_get map_remove
get-remove id [] = refl
get-remove id (e ∷ es) = ground (arith, get-remove id es)

pub get-remove_other :
    (a b : ℕ) (filed : List (ℕ × List ℕ)) → a ≢ b → map_get a (map_remove b filed) ≡ map_get a filed
unfolding map_get map_remove
get-remove_other a b [] h = refl
get-remove_other a b (e ∷ es) h = ground (arith, get-remove_other a b es)

get-insert :
    (m : ℕ × List ℕ) (filed : List (ℕ × List ℕ)) → map_get m.0 (map_insert m.0 m.1 filed) ≡ some m.1
unfolding map_get map_insert
get-insert m filed = ground arith

get-file_all :
    (id : ℕ) (ms filed : List (ℕ × List ℕ))
    → Without id ms
    → map_get id (file_all ms filed) ≡ map_get id filed
unfolding map_get map_insert
get-file_all id [] filed w = refl
get-file_all id (m ∷ ms) filed w =
    get-file_all id ms (map_insert m.0 m.1 filed) w.1
    ∙ ground (arith, get-remove_other id m.0 filed, w.0)

-- A filed message, with no later one of its id, is claimed under its id, and only once.
pub claim-file_all :
    (m : ℕ × List ℕ) (later filed : List (ℕ × List ℕ)) (d : Demux)
    → d.received ≡ file_all (m ∷ later) filed
    → Without m.0 later
    → ((claim m.0 d).0 ≡ some m.1) × ((claim m.0 (claim m.0 d).1).0 ≡ none)
unfolding claim
claim-file_all m later filed d e w = (
  ap (map_get m.0) e ∙ (get-file_all m.0 later (map_insert m.0 m.1 filed) w ∙ get-insert m filed),
  get-remove m.0 d.received,
)
