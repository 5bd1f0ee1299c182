-- ===== src/Live/System/Standing.antt =====
-- Where the control thread and the worker can stand, and how far their session has then come.
use audio_plugins_jl.Base.{
  Bool, true, false, ◌≡◌, ◌≢◌, refl, sym, ap, ◌∙◌, arith, not, if◌then◌else◌,
}
use audio_plugins_jl.Live.Types.{finished}
use audio_plugins_jl.Live.System.{
  Control, idle, awaiting, joining, closed, Worker, absent, entering, looping, leaving, exited,
}
use audio_plugins_jl.Live.System.Monitor.{processing, broken}
use audio_plugins_jl.Live.System.Effects.{Life}
use audio_plugins_jl.Live.System.ControlEffects.{resting, spawned}

abbrev pub is_absent : Worker → Bool
is_absent absent = true
is_absent _ = false

abbrev pub is_entering : Worker → Bool
is_entering entering = true
is_entering _ = false

-- How far a session has come, by where its worker stands.
abbrev pub Place : Worker → Life → Type 0
Place absent l = l ≡ resting l.ready
Place entering l = l ≡ spawned
Place looping l = l ≡ record spawned { ready = true; plugin = processing }
Place leaving l = l ≡ record spawned { ready = true; plugin = processing }
Place exited l = l ≡ record spawned { ready = true; phase = finished }

-- Where the control thread can stand, by its worker and the `stop` flag.
abbrev pub Stand : Control → Worker → Bool → Type 0
Stand idle w stop = is_entering w ≡ false
Stand awaiting w stop = is_absent w ≡ false
Stand (joining p) w stop = (is_absent w ≡ false) × (is_entering w ≡ false) × (stop ≡ true)
Stand closed w stop = w ≡ absent

pub activated_of : (w : Worker) (l : Life) → Place w l → l.activated ≡ not (is_absent w)
activated_of absent l e = ap (λ (x : Life). x.activated) e
activated_of entering l e = ap (λ (x : Life). x.activated) e
activated_of looping l e = ap (λ (x : Life). x.activated) e
activated_of leaving l e = ap (λ (x : Life). x.activated) e
activated_of exited l e = ap (λ (x : Life). x.activated) e

pub entering_of : (w : Worker) (l : Life) → Place w l → l.ready ≡ true → is_entering w ≡ false
entering_of absent l e h = refl
entering_of entering l e h = ground (arith, sym h ∙ ap (λ (x : Life). x.ready) e)
entering_of looping l e h = refl
entering_of leaving l e h = refl
entering_of exited l e h = refl

pub absent_of : (w : Worker) → is_absent w ≡ true → w ≡ absent
absent_of absent h = refl
absent_of entering h = ground (arith, h)
absent_of looping h = ground (arith, h)
absent_of leaving h = ground (arith, h)
absent_of exited h = ground (arith, h)

pub unbroken : (w : Worker) (l : Life) → Place w l → l.plugin ≢ broken
unbroken absent l e h = ground (arith, sym (ap (λ (x : Life). x.plugin) e) ∙ h)
unbroken entering l e h = ground (arith, sym (ap (λ (x : Life). x.plugin) e) ∙ h)
unbroken looping l e h = ground (arith, sym (ap (λ (x : Life). x.plugin) e) ∙ h)
unbroken leaving l e h = ground (arith, sym (ap (λ (x : Life). x.plugin) e) ∙ h)
unbroken exited l e h = ground (arith, sym (ap (λ (x : Life). x.plugin) e) ∙ h)

-- A worker that goes on leaves the control thread where it can stand.
pub Stand-worker :
    (c : Control) (w w' : Worker) (b b' : Bool)
    → is_absent w ≡ false
    → is_absent w' ≡ false
    → is_entering w' ≡ false
    → (b ≡ true → b' ≡ true)
    → Stand c w b
    → Stand c w' b'
Stand-worker idle w w' b b' there there' past keep v = past
Stand-worker awaiting w w' b b' there there' past keep v = there'
Stand-worker (joining p) w w' b b' there there' past keep v = (there', past, keep v.2)
Stand-worker closed w w' b b' there there' past keep v =
    absurd (ground (arith, sym there ∙ ap is_absent v))

-- The worker after its entry, and after a block.
pub begin_places :
    (b : Bool)
    → let w = if b then looping else exited in
      (is_absent w ≡ false)
      × (is_entering w ≡ false)
      × Place w
          (record (if b
            then record spawned { plugin = processing }
            else record spawned { phase = finished }) { ready = true })
begin_places true = (refl, refl, refl)
begin_places false = (refl, refl, refl)

pub block_places :
    (b : Bool) (l : Life)
    → l ≡ record spawned { ready = true; plugin = processing }
    → let w = if b then looping else leaving in
      (is_absent w ≡ false) × (is_entering w ≡ false) × Place w l
block_places true l e = (refl, refl, e)
block_places false l e = (refl, refl, e)
