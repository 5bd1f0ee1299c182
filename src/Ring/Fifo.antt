-- ===== src/Ring/Fifo.antt =====
-- A ring of capacity `n` holds a bounded queue: `publish` appends to it, `consume` drops its head,
-- and the two index tests read its length, across the wrap of the 32-bit indices.
use audio_plugins_jl.Base.{
  ℕ, ◌+◌, ◌%◌, ◌<◌, ◌≤◌, ◌≡◌, refl, ap, ◌∙◌, sym, subst, List, [], ◌∷◌, ◌++◌, some, arith, length,
  ◌==◌, get_elem?-some, get_elem?-set_self, set, set_same, length-set, length-append, false,
}
use audio_plugins_jl.Base.Words.{u32, add32}
use audio_plugins_jl.Ring.{
  Ring, slot_index, used, is_full, is_empty, back_slot, front_slot, publish, consume, reset,
}
use audio_plugins_jl.Ring.Capacity.{
  IsCapacity, IsCapacity-lt_word, slot_index-mod, slot_index-lt, wrap-mod,
}
use audio_plugins_jl.Ring.Window.{Window, Window-start, Window-set, Window-append_left}

-- The ring `r` of `n` slots holds the queue `q`, oldest first.
pub record Holds {ℓ} {B : Type ℓ} (n : ℕ) (r : Ring B) (q : List B) : Type ℓ where
  pub capacity : IsCapacity n
  pub storage : length r.slots ≡ n
  pub read_word : r.read < u32
  pub write_at : r.write ≡ (r.read + length q) % u32
  pub fits : length q ≤ n
  pub window : Window n r.slots r.read q

module _ {ℓ} {B : Type ℓ} {n : ℕ} {r : Ring B} where
  pub used-length : {q : List B} → Holds n r q → used r ≡ length q
  unfolding used
  used-length h = omega (arith, IsCapacity-lt_word h.capacity, h.write_at, h.read_word, h.fits)

  pub is_full-length : {q : List B} → Holds n r q → is_full n r ≡ (length q == n)
  unfolding is_full
  is_full-length h = ap (λ (t : ℕ). t == n) (used-length h)

  pub is_empty-length : {q : List B} → Holds n r q → is_empty r ≡ (length q == 0)
  unfolding is_empty
  is_empty-length h = ground (arith, IsCapacity-lt_word h.capacity, h.write_at, h.read_word, h.fits)

  pub publish-Holds :
      {q : List B} (b : B) → Holds n r q → length q < n → Holds n (publish n b r) (q ++ b ∷ [])
  unfolding publish
  publish-Holds {q} b h room = record {
    capacity = h.capacity;
    storage = length-set r.slots _ b ∙ h.storage;
    read_word = h.read_word;
    write_at = omega (arith, h.write_at, length-append q (b ∷ []));
    fits = omega (arith, length-append q (b ∷ []));
    window =
        rw (slot_index-mod h.capacity r.write, h.write_at, wrap-mod h.capacity (r.read + length q))
          (Window-set n r.slots r.read q b h.storage room h.window);
  }

  pub front_slot-Holds : {x : B} {q : List B} → Holds n r (x ∷ q) → front_slot n r ≡ some x
  unfolding front_slot
  front_slot-Holds h = rw (slot_index-mod h.capacity r.read) h.window.0

  pub consume-Holds : {x : B} {q : List B} → Holds n r (x ∷ q) → Holds n (consume r) q
  unfolding consume
  consume-Holds {x} {q} h = record {
    capacity = h.capacity;
    storage = h.storage;
    read_word = omega arith;
    write_at = omega (arith, h.write_at);
    fits = omega (arith, h.fits);
    window =
        Window-start n r.slots (r.read + 1) (add32 r.read 1) q
          (sym (wrap-mod h.capacity (r.read + 1))) h.window.1;
  }

  -- The slot that the producer fills is in bounds.
  pub back_slot-Holds : {q : List B} → Holds n r q → (b : B) × (back_slot n r ≡ some b)
  unfolding back_slot
  back_slot-Holds h =
      get_elem?-some r.slots _ (omega (arith, slot_index-lt h.capacity r.write, h.storage))

  pub reset-Holds : {q : List B} → Holds n r q → Holds n (reset r) []
  unfolding reset
  reset-Holds h = record {
    capacity = h.capacity;
    storage = h.storage;
    read_word = omega arith;
    write_at = refl;
    fits = omega arith;
    window = tt;
  }

  -- The slot past the queue may hold anything.
  pub scribble-Holds :
      {q : List B} (g : B)
      → Holds n r q
      → length q < n
      → Holds n (record r { slots = set r.slots (slot_index n r.write) g }) q
  scribble-Holds {q} g h room = record {
    capacity = h.capacity;
    storage = length-set r.slots _ g ∙ h.storage;
    read_word = h.read_word;
    write_at = h.write_at;
    fits = h.fits;
    window = Window-append_left n _ r.read q (g ∷ []) (
        rw (slot_index-mod h.capacity r.write, h.write_at, wrap-mod h.capacity (r.read + length q))
          (Window-set n r.slots r.read q g h.storage room h.window));
  }

  -- What was put there is found there.
  pub back_slot-set :
      {q : List B} (b : B)
      → Holds n r q
      → back_slot n (record r { slots = set r.slots (slot_index n r.write) b }) ≡ some b
  unfolding back_slot
  back_slot-set b h =
      get_elem?-set_self r.slots _ b (omega (arith, slot_index-lt h.capacity r.write, h.storage))

  -- Once the slot holds `b`, the index store alone appends it.
  pub advance-Holds :
      {q : List B} (b : B)
      → Holds n r q
      → length q < n
      → back_slot n r ≡ some b
      → Holds n (record r { write = add32 r.write 1 }) (q ++ b ∷ [])
  unfolding back_slot publish
  advance-Holds {q} b h room e =
      subst
        (λ (xs : List B).
          Holds n (record { read = r.read; write = add32 r.write 1; slots = xs }) (q ++ b ∷ []))
        (set_same r.slots _ b e) (publish-Holds b h room)

module _ {ℓ} {B : Type ℓ} where
  -- A ring that holds a queue is that queue: the index difference is its length, the tests for full
  -- and empty are those of the queue, the front slot has the oldest element, consuming drops that
  -- element, and publishing after it appends.
  pub queue_step :
      {n : ℕ} {r : Ring B} (x b : B) (q : List B)
      → Holds n r (x ∷ q)
      → (used r ≡ length (x ∷ q))
        × (is_full n r ≡ (length (x ∷ q) == n))
        × (is_empty r ≡ false)
        × (front_slot n r ≡ some x)
        × Holds n (consume r) q
        × Holds n (publish n b (consume r)) (q ++ b ∷ [])
  queue_step x b q h = (
    used-length h,
    is_full-length h,
    ground (arith, is_empty-length h),
    front_slot-Holds h,
    consume-Holds h,
    publish-Holds b (consume-Holds h) (omega (arith, h.fits)),
  )
