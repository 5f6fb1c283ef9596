-- ===== src/Handshake/Addresses.antt =====
-- A node asks at the address that the master binds for it.
use rpi_hadoop.Prelude.{ℕ, ◌≡◌, ◌≢◌, refl, arith, some, Text, done}
use native.Mathlib.Decide.{ℕ_discrete}
use rpi_hadoop.CText.{format_int, sprintf}
use rpi_hadoop.HostNumber.{Interfaces}
use rpi_hadoop.HostNumber.Buffers.{IsHost, node_number_lem}
use rpi_hadoop.Handshake.{own_address, IsNode, bound_address, node_address}

-- What holds of the nodes 2 to 9 one by one.
each_node :
    (P : ℕ → Type 0) → P 2 → P 3 → P 4 → P 5 → P 6 → P 7 → P 8 → P 9 → (k : ℕ) → IsNode k → P k
each_node P a b c d e f g h k i = go 2 a (λ n2. go 3 b (λ n3. go 4 c (λ n4.
    go 5 d
      (λ n5. go 6 e (λ n6. go 7 f (λ n7. go 8 g (λ n8. go 9 h (λ n9. absurd (omega arith)))))))))
  where
    go : (j : ℕ) → P j → (k ≢ j → P k) → P k
    go j p otherwise = elim (ℕ_discrete k j) [ yes same ↦ rw same p | no away ↦ otherwise away ]

-- Nodes connect to the addresses that the master binds for them.
pub node_address-bound_address :
    (k : ℕ)
    → IsNode k
    → (address : Text) × (bound_address k ≡ some address) × (node_address k ≡ done address)
unfolding bound_address node_address sprintf format_int
node_address-bound_address =
    each_node
      (λ k. (address : Text) × (bound_address k ≡ some address) × (node_address k ≡ done address))
      (_, refl, refl) (_, refl, refl) (_, refl, refl) (_, refl, refl) (_, refl, refl)
      (_, refl, refl) (_, refl, refl) (_, refl, refl)

-- A node with one of these numbers composes the address that the master binds for it.
pub own_address-bound_address :
    (net : Interfaces) (k : ℕ)
    → IsHost net k
    → IsNode k
    → (address : Text) × (bound_address k ≡ some address) × (own_address net ≡ done address)
unfolding own_address
own_address-bound_address net k host node =
    let (address, bound, composed) = node_address-bound_address k node in
    (address, bound, rw (node_number_lem net k host (omega arith), composed) refl)
