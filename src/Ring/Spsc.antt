-- ===== src/Ring/Spsc.antt =====
-- One producer and one consumer of a ring, interleaved at their loads and stores: the tail of
-- `ap_live_try_write` against the head of `process_block`, and the same pair of accesses in
-- `process_block` against `ap_live_try_read` and in csrc/live_device.c. Each side loads the other's
-- index once and decides on that value however old it has become by then; the copies into and out
-- of a slot are not atomic. Memory is sequentially consistent here, which release stores and
-- acquire loads of the indices give the slots that they guard.
pub mod Safety
use audio_plugins_jl.Base.{ℕ, ◌≡◌, ◌≢◌, List, [], ◌∷◌, ◌++◌, some, set}
use audio_plugins_jl.Base.Words.{add32, sub32}
use audio_plugins_jl.Ring.{Ring, slot_index, front_slot}

module _ {ℓ} (B : Type ℓ) where
  -- Where the producer stands in a call with the block `b`.
  pub data Producer : Type ℓ where
    resting : Producer
    loaded : B → ℕ → Producer
    filling : B → Producer
    filled : B → Producer

  -- Where the consumer stands; `copied x` has read `x` out of the slot.
  pub data Consumer : Type ℓ where
    waiting : Consumer
    looked : ℕ → Consumer
    copying : Consumer
    copied : B → Consumer

  -- `sent` and `received` record the calls that have come to their index store.
  pub record Shared : Type ℓ where
    pub ring : Ring B
    pub producer : Producer
    pub consumer : Consumer
    pub sent : List B
    pub received : List B

-- Both sides at rest round an empty ring, whose indices may stand anywhere.
abbrev pub start {ℓ} : {B : Type ℓ} → Ring B → Shared B
start r = record { ring = r; producer = resting; consumer = waiting; sent = []; received = [] }

module _ {ℓ} {B : Type ℓ} (n : ℕ) where
  pub data Step (s : Shared B) : Shared B → Type ℓ where
    load_read :
        (b : B) → s.producer ≡ resting → Step s (record s { producer = loaded b s.ring.read })
    refuse :
        (b : B) (r : ℕ)
        → s.producer ≡ loaded b r
        → sub32 s.ring.write r ≡ n
        → Step s (record s { producer = resting })
    admit :
        (b : B) (r : ℕ)
        → s.producer ≡ loaded b r
        → sub32 s.ring.write r ≢ n
        → Step s (record s { producer = filling b })
    scribble :
        (b g : B)
        → s.producer ≡ filling b
        → Step s (record s {
          ring = record (s.ring) { slots = set s.ring.slots (slot_index n s.ring.write) g };
        })
    fill :
        (b : B)
        → s.producer ≡ filling b
        → Step s (record s {
          ring = record (s.ring) { slots = set s.ring.slots (slot_index n s.ring.write) b };
          producer = filled b;
        })
    store_write :
        (b : B)
        → s.producer ≡ filled b
        → Step s (record s {
          ring = record (s.ring) { write = add32 s.ring.write 1 };
          producer = resting;
          sent = s.sent ++ b ∷ [];
        })
    load_write : s.consumer ≡ waiting → Step s (record s { consumer = looked s.ring.write })
    find_empty :
        (w : ℕ) → s.consumer ≡ looked w → s.ring.read ≡ w → Step s (record s { consumer = waiting })
    find_block :
        (w : ℕ) → s.consumer ≡ looked w → s.ring.read ≢ w → Step s (record s { consumer = copying })
    copy :
        (x : B)
        → s.consumer ≡ copying
        → front_slot n s.ring ≡ some x
        → Step s (record s { consumer = copied x })
    store_read :
        (x : B)
        → s.consumer ≡ copied x
        → Step s (record s {
          ring = record (s.ring) { read = add32 s.ring.read 1 };
          consumer = waiting;
          received = s.received ++ x ∷ [];
        })

  pub data Reach (s : Shared B) : Shared B → Type ℓ where
    here : Reach s s
    next : {t u : Shared B} → Reach s t → Step t u → Reach s u
