-- ===== src/Host/Ports/Bounds.antt =====
-- The port layout of csrc/clap_host.c stays in its arrays, and its pointers in the host's rows.
use audio_plugins_jl.Base.{
  ℕ, zero, suc, ◌+◌, ◌≤◌, ◌<◌, ◌≡◌, refl, Bool, true, false, Option, none, some, arith, ltb, ltb→lt,
  Option-cases, ◌⊎◌, ◌==◌, Bool-cases, inl, inr, not, ◌&&◌,
}
use audio_plugins_jl.Base.Cases.{if_all, if_known, option_known}
use audio_plugins_jl.Base.Loops.{for_range_inv, update}
use audio_plugins_jl.Host.Types.{
  max_ports, max_port_chan, HostError, PortInfo, Target, in_row, out_row, aux, sink, Buffer, Layout,
  PluginOps,
}
use audio_plugins_jl.Host.Ports.{
  route, Side, lay_out, check_port, channels_of, read_side, no_ports, read_direction,
  read_audio_ports,
}

-- Where a pointer of one direction may lead: a row of the host's `chan`, or what is nobody's row.
abbrev pub Leads : Bool → ℕ → Target → Type 0
Leads true chan (in_row c) = c < chan
Leads true chan aux = Unit
Leads true chan _ = ⊥
Leads false chan (out_row c) = c < chan
Leads false chan sink = Unit
Leads false chan _ = ⊥

record IsFitting (is_input : Bool) (chan : ℕ) (d : Side) : Type 0 where
  room : d.flat ≤ max_port_chan
  leads : (k : ℕ) → k < d.flat → Leads is_input chan (d.ptr k)

route-Leads :
    (is_input : Bool) (chan i flat : ℕ)
    → 1 ≤ chan
    → Leads is_input chan (route is_input chan i flat)
unfolding route
route-Leads true chan i flat le = elim (Bool-cases (i == 0)) [
  | inl main ↦ elim (Bool-cases (ltb flat chan)) [
    | inl inside ↦ simp (main, inside) (ltb→lt flat chan inside)
    | inr past ↦ simp (main, past) (omega (arith, le))
  ]
  | inr other ↦ simp other tt
]
route-Leads false chan i flat le = elim (Bool-cases (i == 0)) [
  | inl main ↦ elim (Bool-cases (ltb flat chan)) [
    | inl inside ↦ simp (main, inside) (ltb→lt flat chan inside)
    | inr past ↦ simp (main, past) tt
  ]
  | inr other ↦ simp other tt
]

lay_out-IsFitting :
    (is_input : Bool) (chan i count : ℕ) (d : Side)
    → 1 ≤ chan
    → d.flat + count ≤ max_port_chan
    → IsFitting is_input chan d
    → IsFitting is_input chan (lay_out is_input chan i count d)
unfolding lay_out
lay_out-IsFitting is_input chan i count d le fits v = record {
  room = fits;
  leads =
      for_range_inv (λ k p. (j : ℕ) → j < k → Leads is_input chan (p j))
        (λ k p. update p k (route is_input chan i k)) count d.flat (d.flat + count) d.ptr
        (λ k p lo hi done j hj. elim (Bool-cases (j == k)) [
          | inl same ↦ simp same (route-Leads is_input chan i k le)
          | inr other ↦ simp other (done j (ground (arith, other)))
        ])
        refl v.leads;
}

check_port_fits :
    (i flat : ℕ) (p : Option PortInfo)
    → check_port i flat p ≡ none
    → flat + channels_of p ≤ max_port_chan
unfolding check_port
check_port_fits i flat none e = ground (arith, e)
check_port_fits i flat (some p) e = ground (arith, e)

read_side_bad :
    (is_input : Bool) (chan : ℕ) (get : ℕ → Option PortInfo) (n i : ℕ) (d : Side) (why : HostError)
    → check_port i d.flat (get i) ≡ some why
    → read_side is_input chan get (suc n) i d ≡ (some why, d)
unfolding read_side
read_side_bad is_input chan get n i d why e = ground (arith, e)

read_side_good :
    (is_input : Bool) (chan : ℕ) (get : ℕ → Option PortInfo) (n i : ℕ) (d : Side)
    → check_port i d.flat (get i) ≡ none
    → read_side is_input chan get (suc n) i d
      ≡ read_side is_input chan get n (suc i) (lay_out is_input chan i (channels_of (get i)) d)
unfolding read_side
read_side_good is_input chan get n i d e = ground (arith, e)

read_side-IsFitting :
    (is_input : Bool) (chan : ℕ) (get : ℕ → Option PortInfo) (n i : ℕ) (d : Side)
    → 1 ≤ chan
    → IsFitting is_input chan d
    → IsFitting is_input chan (read_side is_input chan get n i d).1
unfolding read_side
read_side-IsFitting is_input chan get zero i d le v = v
read_side-IsFitting is_input chan get (suc n) i d le v =
    elim (Option-cases (check_port i d.flat (get i))) [
      | inr (why, bad) ↦ rw (read_side_bad is_input chan get n i d why bad) v
      | inl good ↦ rw (read_side_good is_input chan get n i d good) (
          read_side-IsFitting is_input chan get n (suc i)
            (lay_out is_input chan i (channels_of (get i)) d) le
            (lay_out-IsFitting is_input chan i (channels_of (get i)) d le
              (check_port_fits i d.flat (get i) good) v))
    ]

-- A layout that the host can serve on `chan` channels.
pub record IsServed (chan : ℕ) (l : Layout) : Type 0 where
  pub in_ports : l.n_in_ports ≤ max_ports
  pub out_ports : l.n_out_ports ≤ max_ports
  pub in_room : l.n_in_chan ≤ max_port_chan
  pub out_room : l.n_out_chan ≤ max_port_chan
  pub reads : (k : ℕ) → k < l.n_in_chan → Leads true chan (l.in_ptr k)
  pub writes : (k : ℕ) → k < l.n_out_chan → Leads false chan (l.out_ptr k)
  pub main : (l.n_in_ports ≡ 0) ⊎ (chan ≤ l.n_in_main)

-- The input half and the output half of it.
record IsInput (chan : ℕ) (l : Layout) : Type 0 where
  ports : l.n_in_ports ≤ max_ports
  room : l.n_in_chan ≤ max_port_chan
  reads : (k : ℕ) → k < l.n_in_chan → Leads true chan (l.in_ptr k)

record IsOutput (chan : ℕ) (l : Layout) : Type 0 where
  ports : l.n_out_ports ≤ max_ports
  room : l.n_out_chan ≤ max_port_chan
  writes : (k : ℕ) → k < l.n_out_chan → Leads false chan (l.out_ptr k)

no_ports-IsServed : (chan : ℕ) (l : Layout) → IsServed chan (no_ports l)
no_ports-IsServed chan l = record {
  in_ports = omega arith;
  out_ports = omega arith;
  in_room = omega arith;
  out_room = omega arith;
  reads = λ k lt. absurd (omega arith);
  writes = λ k lt. absurd (omega arith);
  main = inl refl;
}

-- What a reading without an error has laid out.
record Lays (T : Layout → Type 0) (r : Option HostError × Layout) : Type 0 where
  laid : r.0 ≡ none → T r.1

bad : (T : Layout → Type 0) (e : HostError) (l : Layout) → Lays T (some e, l)
bad T e l = record { laid = λ no. ground (arith, no) }

module _ {P D S : Type 0} (ops : PluginOps P D S) (p : P) (chan : ℕ) (le : 1 ≤ chan) where
  -- The ports of one direction, from an empty side on.
  side_of :
      (is_input : Bool) (bufs : ℕ → Buffer) (ptr : ℕ → Target)
      → IsFitting is_input chan
          (read_side is_input chan
            (λ i. ops.port_get p i is_input)
            (ops.port_count p is_input)
            0
            (record { bufs = bufs; ptr = ptr; flat = 0 })).1
  side_of is_input bufs ptr =
      read_side-IsFitting is_input chan (λ i. ops.port_get p i is_input) (ops.port_count p is_input)
        0 (record { bufs = bufs; ptr = ptr; flat = 0 }) le
        (record { room = omega arith; leads = λ k lt. absurd (omega arith) })

  read_direction-IsInput : (l : Layout) → Lays (IsInput chan) (read_direction ops p true chan l)
  unfolding read_direction
  read_direction-IsInput l =
      if_known (Lays (IsInput chan)) (ltb max_ports (ops.port_count p true)) (λ many. bad _ _ _)
        (λ few.
          let v = side_of true l.in_bufs l.in_ptr in
          record {
            laid = λ e.
                simp e (record { ports = ground (arith, few); room = v.room; reads = v.leads });
          })

  read_direction-IsOutput :
      (l : Layout)
      → IsInput chan l
      → Lays (λ t. IsInput chan t × IsOutput chan t) (read_direction ops p false chan l)
  unfolding read_direction
  read_direction-IsOutput l w =
      if_known (Lays (λ t. IsInput chan t × IsOutput chan t))
        (ltb max_ports (ops.port_count p false)) (λ many. bad _ _ _)
        (λ few.
          let v = side_of false l.out_bufs l.out_ptr in
          record {
            laid = λ e. simp e (
              record { ports = w.ports; room = w.room; reads = w.reads },
              record { ports = ground (arith, few); room = v.room; writes = v.leads },
            );
          })

  read_audio_ports-Lays : (l : Layout) → Lays (IsServed chan) (read_audio_ports ops p chan l)
  unfolding read_audio_ports
  read_audio_ports-Lays l =
      let T : (Option HostError × Layout) → Type 0 = Lays (IsServed chan) in
      let (e, l1) = read_direction ops p true chan l in
      let (e', l2) = read_direction ops p false chan l1 in
      if_all T (not (ops.has_ports p)) (record { laid = λ e. no_ports-IsServed chan l })
        (option_known T e
          (λ first.
            let v = (read_direction-IsInput l).laid first in
            option_known T e'
              (λ second.
                let (a, b) = (read_direction-IsOutput l1 v).laid second in
                if_known T (not (l2.n_in_ports == 0) && ltb l2.n_in_main chan) (λ narrow. bad _ _ _)
                  (λ wide. record {
                    laid = λ no. record {
                      in_ports = a.ports;
                      out_ports = b.ports;
                      in_room = a.room;
                      out_room = b.room;
                      reads = a.reads;
                      writes = b.writes;
                      main = ground (arith, wide);
                    };
                  }))
              (λ why e. bad _ _ _))
          (λ why e. bad _ _ _))

  -- A plugin whose ports `read_audio_ports` takes, on at least one host channel, has at most 16 ports
  -- and 32 channels a direction; each input pointer leads to a host input row or to the shared
  -- silence, each output pointer to a host output row or to the sink; and with input ports, the main
  -- one takes every host channel.
  pub read_audio_ports-IsServed :
      (l : Layout)
      → (read_audio_ports ops p chan l).0 ≡ none
      → IsServed chan (read_audio_ports ops p chan l).1
  read_audio_ports-IsServed l = (read_audio_ports-Lays l).laid
