-- ===== src/Clients.antt =====
-- src/core/cccam3_client.c and cccam3_client.h: the pool of connected clients. A pointer is a
-- number; `object` is the memory that it points to, and `freed` says that free() was called on
-- it. time(NULL) is the argument `now`. Each function holds g_pool_mutex over the part that is
-- modelled, so threads are a sequence of calls.
pub mod Slots
pub mod References
mod Tests
use cccam_3_0_1_by_sharillas.Base.{
  ℕ, zero, suc, ◌+◌, ◌-◌, ◌%◌, ◌^◌, Bool, true, false, ◌&&◌, not, Option, none, some, List, [], ◌∷◌,
  ltb, leb, ◌==◌, if◌then◌else◌, bit_xor, is_some, get_elem?,
}

pub record Client : Type 0 where
  pub socket_fd : ℕ
  pub client_id : ℕ
  pub authenticated : Bool
  pub connected_at : ℕ
  pub last_keepalive : ℕ
  pub hop_count : ℕ
  pub refs : ℕ
  pub zombie : Bool
  pub freed : Bool
  pub ecm_total : ℕ
  pub ecm_ok : ℕ
  pub cur_caid : ℕ
  pub cur_sid : ℕ
  pub cur_channel_at : ℕ

abbrev pub Pointer : Type 0
Pointer = ℕ

pub record Pool : Type 0 where
  pub slots : List (Option Pointer)
  pub count : ℕ
  pub object : Pointer → Client

abbrev pub max_clients : ℕ
max_clients = 100

-- A write to the object behind a pointer.
abbrev pub write : (Pointer → Client) → Pointer → Client → Pointer → Client
write m p c q = if p == q then c else m q

abbrev pub modify : Pool → Pointer → (Client → Client) → Pool
modify g p f = record g { object = write g.object p (f (g.object p)) }

abbrev pub points_to : Pointer → Option Pointer → Bool
points_to p none = false
points_to p (some q) = q == p

-- `calloc` and the assignments of `cccam_client_create`.
unfoldable pub new_client : ℕ → ℕ → Pointer → Client
new_client socket now p = record {
  socket_fd = socket;
  client_id = bit_xor now (p % 2 ^ 32) % 2 ^ 32;
  authenticated = false;
  connected_at = now;
  last_keepalive = now;
  hop_count = 1;
  refs = 1;
  zombie = false;
  freed = false;
  ecm_total = 0;
  ecm_ok = 0;
  cur_caid = 0;
  cur_sid = 0;
  cur_channel_at = 0;
}

-- The loop that puts the pointer into the first empty slot; `none` if there is none.
unfoldable pub fill_slot : Pointer → List (Option Pointer) → Option (List (Option Pointer))
fill_slot p [] = none
fill_slot p (none ∷ ss) = some (some p ∷ ss)
fill_slot p (some q ∷ ss) = elim (fill_slot p ss) [ none ↦ none | some ts ↦ some (some q ∷ ts) ]

-- The loop that empties the first slot that holds the pointer.
unfoldable pub clear_slot : Pointer → List (Option Pointer) → List (Option Pointer)
clear_slot p [] = []
clear_slot p (s ∷ ss) = let rest = clear_slot p ss in if points_to p s then none ∷ ss else s ∷ rest

unfoldable pub in_slot : Pointer → List (Option Pointer) → Bool
in_slot p [] = false
in_slot p (s ∷ ss) = let rest = in_slot p ss in if points_to p s then true else rest

-- `cccam_client_create`; `allocation` is what calloc returns, `none` for NULL.
unfoldable pub create : Pool → ℕ → ℕ → Option Pointer → Pool × Option Pointer
create g socket now none = (g, none)
create g socket now (some p) =
    if leb max_clients g.count then (g, none) else elim (fill_slot p g.slots) [
      | none ↦ (
        record g { object = write g.object p (record (new_client socket now p) { freed = true }) },
        none,
      )
      | some ss ↦ (
        record {
          slots = ss;
          count = g.count + 1;
          object = write g.object p (new_client socket now p);
        },
        some p,
      )
    ]

-- `refs--`, and free() when that was the last reference of a zombie. A count of 0 stays.
unfoldable pub drop_ref : Client → Client
drop_ref c =
    let d = record c { refs = c.refs - 1 } in
    if leb c.refs 1 && c.zombie then record d { freed = true } else d

-- `zombie = 1; refs--`, and free() at zero. The source's count goes to -1 where this one stays at 0,
-- which the pool's own reference rules out.
unfoldable pub retire : Client → Client
retire c = record c {
  zombie = true;
  refs = c.refs - 1;
  freed = (if c.refs == 1 then true else c.freed);
}

-- `cccam_client_destroy`
unfoldable pub destroy : Pool → Pointer → Pool
unfolding retire
destroy g p = record {
  slots = clear_slot p g.slots;
  count = (if in_slot p g.slots then g.count - 1 else g.count);
  object = write g.object p (retire (g.object p));
}

-- `pool_acquire_locked`
unfoldable pub acquire : Pool → Pointer → Pool × Option Pointer
acquire g p =
    if (g.object p).zombie
    then (g, none)
    else (modify g p (λ c. record c { refs = c.refs + 1 }), some p)

-- `cccam_client_ref`
unfoldable pub ref : Pool → Pointer → Pool × Option Pointer
unfolding acquire
ref g p = acquire g p

-- `cccam_client_unref`
unfoldable pub unref : Pool → Pointer → Pool
unfolding drop_ref
unref g p = modify g p drop_ref

-- The first slot whose client has the id.
unfoldable pub slot_with_id : (Pointer → Client) → ℕ → List (Option Pointer) → Option Pointer
slot_with_id m id [] = none
slot_with_id m id (none ∷ ss) = slot_with_id m id ss
slot_with_id m id (some p ∷ ss) =
    let rest = slot_with_id m id ss in if (m p).client_id == id then some p else rest

-- `cccam_client_find_by_id`
unfoldable pub find_by_id : Pool → ℕ → Pool × Option Pointer
unfolding acquire
find_by_id g id = elim (slot_with_id g.object id g.slots) [
  | none ↦ (g, none)
  | some p ↦ acquire g p
]

-- `cccam_client_get_by_index_ref`; an index that is out of range is `none`, as an empty slot is.
unfoldable pub get_by_index_ref : Pool → ℕ → Pool × Option Pointer
unfolding acquire
get_by_index_ref g index = elim (get_elem? g.slots index) [
  | none ↦ (g, none)
  | some slot ↦ elim slot [ none ↦ (g, none) | some p ↦ acquire g p ]
]

unfoldable pub authenticate : Pool → Pointer → Pool
authenticate g p = modify g p (λ c. record c { authenticated = true })

unfoldable pub set_hop : Pool → Pointer → ℕ → Pool
set_hop g p hop = modify g p (λ c. record c { hop_count = hop })

unfoldable pub update_keepalive : Pool → Pointer → ℕ → Pool
update_keepalive g p now = modify g p (λ c. record c { last_keepalive = now })

unfoldable pub is_timeout : Pool → Pointer → ℕ → ℕ → Bool
is_timeout g p seconds now = ltb seconds (now - (g.object p).last_keepalive)
