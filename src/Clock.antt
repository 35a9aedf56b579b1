-- ===== src/Clock.antt =====
-- Vector clocks of transaction_management: `struct clock` of tworker.h, updateMyVectorClock of
-- helper.c, mergeVectorClock and the copies between memory and the mapped log of tworker.c and
-- tmanager.c. An array of MAX_NODES clocks is a list; a slot with node id 0 is unused.
pub mod Merge
pub mod Join
pub mod Packed
pub mod Tests
use distributed_system.Base.{
  ℕ, suc, ◌+◌, ◌%◌, ◌^◌, Bool, true, false, List, [], ◌∷◌, ltb, ◌==◌, if◌then◌else◌,
}

abbrev pub max_nodes : ℕ
max_nodes = 10

pub record Clock : Type 0 where
  pub node_id : ℕ
  pub time : ℕ

abbrev pub empty : Clock
empty = record { node_id = 0; time = 0 }

-- `time++` on an unsigned int.
unfoldable pub tick : Clock → Clock
tick c = record c { time = (c.time + 1) % 2 ^ 32 }

-- The first slot of `port` is incremented.
unfoldable pub update_my_vector_clock : ℕ → List Clock → List Clock
update_my_vector_clock port [] = []
update_my_vector_clock port (c ∷ vc) =
    if c.node_id == port then tick c ∷ vc else c ∷ update_my_vector_clock port vc

-- What updateMyVectorClock returns: the slot incremented, or the length if there is none.
unfoldable pub my_index : ℕ → List Clock → ℕ
my_index port [] = 0
my_index port (c ∷ vc) = if c.node_id == port then 0 else suc (my_index port vc)

-- The inner loop of mergeVectorClock, for one entry of the message.
unfoldable pub merge_entry : Clock → List Clock → List Clock
merge_entry e [] = []
merge_entry e (c ∷ vc) =
    if e.node_id == c.node_id
    then (if ltb c.time e.time then record c { time = e.time } else c) ∷ vc
    else (if c.node_id == 0 then e ∷ vc else c ∷ merge_entry e vc)

-- The outer loop: it stops at the first unused entry of the message.
unfoldable pub merge_vector_clock : List Clock → List Clock → List Clock
unfolding merge_entry
merge_vector_clock [] vc = vc
merge_vector_clock (e ∷ es) vc =
    let rest = merge_vector_clock es (merge_entry e vc) in if e.node_id == 0 then vc else rest

-- The time known for a node: that of its first slot, 0 if an unused slot or the end comes first.
unfoldable pub time_of : ℕ → List Clock → ℕ
time_of id [] = 0
time_of id (c ∷ vc) =
    if c.node_id == id then c.time else (if c.node_id == 0 then 0 else time_of id vc)

-- The node has a slot in front of the first unused one.
unfoldable pub knows : ℕ → List Clock → Bool
knows id [] = false
knows id (c ∷ vc) =
    if c.node_id == id then true else (if c.node_id == 0 then false else knows id vc)
