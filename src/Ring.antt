-- ===== src/Ring.antt =====
-- The single-producer single-consumer ring of csrc/clap_live.c (`ring`, `block`) and of
-- csrc/live_device.c (`device_ring`): free-running uint32_t indices over a power of two of slots.
-- Both files spell the index arithmetic out at each use; here each use calls these functions.
pub mod Capacity
pub mod Window
pub mod Fifo
pub mod Spsc
pub mod Tests
use audio_plugins_jl.Base.{
  ℕ, ◌-◌, Bool, List, Option, none, some, bit_and, ◌==◌, if◌then◌else◌, get_elem?, set,
}
use audio_plugins_jl.Base.Words.{add32, sub32}

pub record Ring {ℓ} (B : Type ℓ) : Type ℓ where
  pub read : ℕ
  pub write : ℕ
  pub slots : List B

-- `i & (queue_blocks - 1)`
unfoldable pub slot_index : ℕ → ℕ → ℕ
slot_index n i = bit_and i (n - 1)

module _ {ℓ} {B : Type ℓ} where
  -- `w - r`
  unfoldable pub used : Ring B → ℕ
  used r = sub32 r.write r.read

  -- `w - r == queue_blocks`
  unfoldable pub is_full : ℕ → Ring B → Bool
  unfolding used
  is_full n r = used r == n

  -- `r == w`
  unfoldable pub is_empty : Ring B → Bool
  is_empty r = r.read == r.write

  -- `&slots[w & (queue_blocks - 1)]`, the slot that the producer fills; `none` is out of bounds.
  unfoldable pub back_slot : ℕ → Ring B → Option B
  unfolding slot_index
  back_slot n r = get_elem? r.slots (slot_index n r.write)

  -- `&slots[r & (queue_blocks - 1)]`, the slot that the consumer copies.
  unfoldable pub front_slot : ℕ → Ring B → Option B
  unfolding slot_index
  front_slot n r = get_elem? r.slots (slot_index n r.read)

  -- The slot's stores, then the store of `w + 1`.
  unfoldable pub publish : ℕ → B → Ring B → Ring B
  unfolding slot_index
  publish n b r = record r { slots = set r.slots (slot_index n r.write) b; write = add32 r.write 1 }

  -- The store of `r + 1`.
  unfoldable pub consume : Ring B → Ring B
  consume r = record r { read = add32 r.read 1 }

  -- Both indices stored as 0; the slots stay.
  unfoldable pub reset : Ring B → Ring B
  reset r = record r { read = 0; write = 0 }
