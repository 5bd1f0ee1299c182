-- ===== src/Ring/Spsc/Safety.antt =====
-- No interleaving of the producer and the consumer loses, repeats, reorders or tears a block.
use mathlib.Core.List.{append_assoc}
use audio_plugins_jl.Base.{
  Option, length-append, ℕ, ◌+◌, ◌%◌, ◌<◌, ◌≤◌, ◌≡◌, ◌≢◌, subst, refl, ap, ◌∙◌, sym, List, [], ◌∷◌,
  ◌++◌, some, arith, length,
}
use audio_plugins_jl.Base.Words.{u32, add32, sub32}
use audio_plugins_jl.Ring.{Ring, back_slot, front_slot, consume}
use audio_plugins_jl.Ring.Fifo.{
  Holds, scribble-Holds, back_slot-set, advance-Holds, front_slot-Holds, consume-Holds,
}
use audio_plugins_jl.Ring.Capacity.{IsCapacity-lt_word}
use audio_plugins_jl.Ring.Spsc.{
  Producer, Consumer, Shared, Step, Reach, start, resting, loaded, filling, filled, waiting, looked,
  copying, copied, load_read, refuse, admit, scribble, fill, store_write, load_write, find_empty,
  find_block, copy, store_read, here, next,
}

module _ {ℓ} {B : Type ℓ} where
  -- What the producer may rely on, `k` blocks having been consumed since it loaded the index.
  abbrev ProducerInv : ℕ → ℕ → Option B → List B → Producer B → Type ℓ
  ProducerInv n read back q resting = Unit
  ProducerInv n read back q (loaded b r) =
      (k : ℕ) × (read ≡ (r + k) % u32) × (r < u32) × (k + length q ≤ n) × Unit {ℓ}
  ProducerInv n read back q (filling b) = (length q < n) × Unit {ℓ}
  ProducerInv n read back q (filled b) = (length q < n) × (back ≡ some b)

  -- What the consumer may rely on, `k` blocks having been there when it loaded the index.
  abbrev ConsumerInv : ℕ → List B → Consumer B → Type ℓ
  ConsumerInv read q waiting = Unit
  ConsumerInv read q (looked w) = (k : ℕ) × (w ≡ (read + k) % u32) × (k ≤ length q) × Unit {ℓ}
  ConsumerInv read q copying = (x : B) × (p : List B) × (q ≡ x ∷ p)
  ConsumerInv read q (copied x) = (p : List B) × (q ≡ x ∷ p)

  ConsumerInv-append :
      (read : ℕ) (q : List B) (b : B) (c : Consumer B)
      → ConsumerInv read q c
      → ConsumerInv read (q ++ b ∷ []) c
  ConsumerInv-append read q b waiting v = tt
  ConsumerInv-append read q b (looked w) v =
      (v.0, v.1, omega (arith, v.2, length-append q (b ∷ [])), tt)
  ConsumerInv-append read q b copying v = (v.0, v.1 ++ b ∷ [], ap (λ p. p ++ b ∷ []) v.2)
  ConsumerInv-append read q b (copied x) v = (v.0 ++ b ∷ [], ap (λ p. p ++ b ∷ []) v.1)

  ProducerInv-consume :
      (n read : ℕ) (back : Option B) (x : B) (q : List B) (p : Producer B)
      → ProducerInv n read back (x ∷ q) p
      → ProducerInv n (add32 read 1) back q p
  ProducerInv-consume n read back x q resting v = tt
  ProducerInv-consume n read back x q (loaded b r) v =
      (v.0 + 1, omega (arith, v.1, v.2), v.2, omega (arith, v.3), tt)
  ProducerInv-consume n read back x q (filling b) v = (omega (arith, v.0), tt)
  ProducerInv-consume n read back x q (filled b) v = (omega (arith, v.0), v.1)

  nonempty : (q : List B) → 0 < length q → (x : B) × (p : List B) × (q ≡ x ∷ p)
  nonempty [] h = absurd (omega arith)
  nonempty (x ∷ p) h = (x, p, refl)

pub record Inv {ℓ} {B : Type ℓ} (n : ℕ) (s : Shared B) (q : List B) : Type ℓ where
  pub holds : Holds n s.ring q
  pub order : s.sent ≡ s.received ++ q
  producing : ProducerInv n s.ring.read (back_slot n s.ring) q s.producer
  consuming : ConsumerInv s.ring.read q s.consumer

module _ {ℓ} {B : Type ℓ} {n : ℕ} where
  -- An old index of the consumer can only make the ring look fuller than it is.
  room_left :
      {r : Ring B} {q : List B} (r' k : ℕ)
      → Holds n r q
      → r.read ≡ (r' + k) % u32
      → r' < u32
      → k + length q ≤ n
      → sub32 r.write r' ≢ n
      → length q < n
  room_left r' k h e small fits ne =
      omega (arith, h.write_at, h.read_word, IsCapacity-lt_word h.capacity, h.fits)

  -- An old index of the producer can only make the ring look emptier than it is.
  block_there :
      {r : Ring B} {q : List B} (w k : ℕ)
      → Holds n r q
      → w ≡ (r.read + k) % u32
      → k ≤ length q
      → r.read ≢ w
      → 0 < length q
  block_there w k h e fits ne = omega (arith, h.read_word)

  -- What the slot's copy finds is the head of the queue.
  copy_head :
      {r : Ring B} {q : List B} (x y : B) (p : List B)
      → Holds n r q
      → q ≡ y ∷ p
      → front_slot n r ≡ some x
      → q ≡ x ∷ p
  copy_head {r} x y p h e f =
      let found : front_slot n r ≡ some y = front_slot-Holds (subst (Holds n r) e h) in cc

  Step-Inv : {s t : Shared B} (q : List B) → Inv n s q → Step n s t → (q' : List B) × Inv n t q'
  unfolding back_slot consume
  Step-Inv {s} q v (load_read b e) = (
    q,
    record {
      holds = v.holds;
      order = v.order;
      producing =
          (0, omega (arith, v.holds.read_word), v.holds.read_word, omega (arith, v.holds.fits), tt);
      consuming = v.consuming;
    },
  )
  Step-Inv {s} q v (refuse b r e f) =
      (q, record { holds = v.holds; order = v.order; producing = tt; consuming = v.consuming })
  Step-Inv {s} q v (admit b r e f) =
      let p = subst (ProducerInv n s.ring.read (back_slot n s.ring) q) e v.producing in
      (
        q,
        record {
          holds = v.holds;
          order = v.order;
          producing = (room_left r p.0 v.holds p.1 p.2 p.3 f, tt);
          consuming = v.consuming;
        },
      )
  Step-Inv {s} q v (scribble b g e) =
      let p = subst (ProducerInv n s.ring.read (back_slot n s.ring) q) e v.producing in
      (
        q,
        record {
          holds = scribble-Holds g v.holds p.0;
          order = v.order;
          producing = subst (ProducerInv n s.ring.read _ q) (sym e) (p.0, tt);
          consuming = v.consuming;
        },
      )
  Step-Inv {s} q v (fill b e) =
      let p = subst (ProducerInv n s.ring.read (back_slot n s.ring) q) e v.producing in
      (
        q,
        record {
          holds = scribble-Holds b v.holds p.0;
          order = v.order;
          producing = (p.0, back_slot-set b v.holds);
          consuming = v.consuming;
        },
      )
  Step-Inv {s} q v (store_write b e) =
      let p = subst (ProducerInv n s.ring.read (back_slot n s.ring) q) e v.producing in
      (
        q ++ b ∷ [],
        record {
          holds = advance-Holds b v.holds p.0 p.1;
          order = ap (λ xs. xs ++ b ∷ []) v.order ∙ append_assoc s.received q (b ∷ []);
          producing = tt;
          consuming = ConsumerInv-append s.ring.read q b s.consumer v.consuming;
        },
      )
  Step-Inv {s} q v (load_write e) = (
    q,
    record {
      holds = v.holds;
      order = v.order;
      producing = v.producing;
      consuming = (length q, v.holds.write_at, omega arith, tt);
    },
  )
  Step-Inv {s} q v (find_empty w e f) =
      (q, record { holds = v.holds; order = v.order; producing = v.producing; consuming = tt })
  Step-Inv {s} q v (find_block w e f) =
      let c = subst (ConsumerInv s.ring.read q) e v.consuming in
      (
        q,
        record {
          holds = v.holds;
          order = v.order;
          producing = v.producing;
          consuming = nonempty q (block_there w c.0 v.holds c.1 c.2 f);
        },
      )
  Step-Inv {s} q v (copy x e f) =
      let c = subst (ConsumerInv s.ring.read q) e v.consuming in
      (
        q,
        record {
          holds = v.holds;
          order = v.order;
          producing = v.producing;
          consuming = (c.1, copy_head x c.0 c.1 v.holds c.2 f);
        },
      )
  Step-Inv {s} q v (store_read x e) =
      let c = subst (ConsumerInv s.ring.read q) e v.consuming in
      (
        c.0,
        record {
          holds = consume-Holds (subst (Holds n s.ring) c.1 v.holds);
          order = v.order ∙ ap (◌++◌ s.received) c.1 ∙ sym (append_assoc s.received (x ∷ []) c.0);
          producing = ProducerInv-consume n s.ring.read (back_slot n s.ring) x c.0 s.producer (
              subst (λ xs. ProducerInv n s.ring.read (back_slot n s.ring) xs s.producer) c.1
                v.producing);
          consuming = tt;
        },
      )

  Reach-Inv :
      (r : Ring B) {t : Shared B} → Holds n r [] → Reach n (start r) t → (q : List B) × Inv n t q
  Reach-Inv r h here = ([], record { holds = h; order = refl; producing = tt; consuming = tt })
  Reach-Inv r h (next m st) = let before = Reach-Inv r h m in Step-Inv before.0 before.1 st

  -- From an empty ring, however the two sides interleave, and whatever the 32-bit indices start
  -- from: the blocks received are the first of the blocks sent, in order, each once, and the rest of them stand in
  -- the ring, at most `n`.
  pub spsc_fifo :
      (r : Ring B) {t : Shared B}
      → Holds n r []
      → Reach n (start r) t
      → (q : List B) × (t.sent ≡ t.received ++ q) × (length q ≤ n) × Holds n t.ring q
  spsc_fifo r h m = let (q, v) = Reach-Inv r h m in (q, v.order, v.holds.fits, v.holds)

  -- From an empty ring, as long as the consumer copies, the slot that it reads holds the next block sent, whole,
  -- whatever the producer writes meanwhile.
  pub spsc_untorn :
      (r : Ring B) {t : Shared B}
      → Holds n r []
      → Reach n (start r) t
      → t.consumer ≡ copying
      → (x : B) × (p : List B) × (t.sent ≡ t.received ++ x ∷ p) × (front_slot n t.ring ≡ some x)
  spsc_untorn r {t} h m e =
      let (q, v) = Reach-Inv r h m in
      let c = subst (ConsumerInv t.ring.read q) e v.consuming in
      (
        c.0,
        c.1,
        v.order ∙ ap (◌++◌ t.received) c.2,
        front_slot-Holds (subst (Holds n t.ring) c.2 v.holds),
      )
