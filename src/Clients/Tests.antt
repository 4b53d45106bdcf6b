-- ===== src/Clients/Tests.antt =====
-- A run of the client pool, and instances of its theorems.
use cccam_3_0_1_by_sharillas.Base.{
  ℕ, ◌+◌, ◌≡◌, refl, not, true, false, none, List, [], ◌∷◌, arith, ltb, inl, Option, zero, suc,
}
use cccam_3_0_1_by_sharillas.Clients.{
  Client, new_client, create, fill_slot, acquire, destroy, unref,
}
use cccam_3_0_1_by_sharillas.Clients.Slots.{uses, taken}
use cccam_3_0_1_by_sharillas.Clients.References.{
  World, PoolInv, Reach, here, next, creates, refs_again, destroys, unrefs, apply,
  Reach-no_dangling,
}

abbrev empty_slots : ℕ → List (Option ℕ)
empty_slots zero = []
empty_slots (suc n) = none ∷ empty_slots n

-- Memory that is not allocated counts as freed.
abbrev blank : Client
blank = record {
  socket_fd = 0;
  client_id = 0;
  authenticated = false;
  connected_at = 0;
  last_keepalive = 0;
  hop_count = 0;
  refs = 0;
  zombie = false;
  freed = true;
  ecm_total = 0;
  ecm_ok = 0;
  cur_caid = 0;
  cur_sid = 0;
  cur_channel_at = 0;
}

abbrev no_clients : World
no_clients = record {
  pool = record { slots = empty_slots 100; count = 0; object = λ p. blank };
  held = λ p. 0;
}

no_clients-PoolInv : PoolInv no_clients
no_clients-PoolInv = record { tracked = λ p. inl (refl, refl, refl); counted = refl; sized = refl }

-- A client connects, and its thread takes a reference.
abbrev connected : World
connected = apply (apply no_clients (creates 4 1000 77)) (refs_again 77)

connected-Reach : Reach no_clients connected
unfolding apply create fill_slot
connected-Reach = next (next here (creates 4 1000 77) refl) (refs_again 77) (omega arith)

Reach-no_dangling_example :
    ((connected.pool.object 77).freed
      ≡ not (ltb 0 (connected.held 77 + uses 77 connected.pool.slots)))
    × (connected.pool.count ≡ taken connected.pool.slots)
Reach-no_dangling_example = Reach-no_dangling 77 no_clients-PoolInv connected-Reach

-- The client is destroyed while the thread still holds it, and freed when the thread lets go.
freed_last :
    (((apply connected (destroys 77)).pool.object 77).freed ≡ false)
    × (((apply (apply connected (destroys 77)) (unrefs 77)).pool.object 77).freed ≡ true)
unfolding apply create fill_slot new_client acquire destroy unref
freed_last = (refl, refl)
