-- ===== src/Host/Ports.antt =====
-- `read_audio_ports` of csrc/clap_host.c: the plugin's ports, and where their channels lead. Only
-- the main port, at index 0, is routed to the host's own rows.
pub mod Bounds
use audio_plugins_jl.Base.{
  ℕ, zero, suc, ◌+◌, ◌-◌, Bool, true, false, not, ◌&&◌, Option, none, some, ltb, ◌==◌,
  if◌then◌else◌,
}
use audio_plugins_jl.Base.Loops.{for_range, update}
use audio_plugins_jl.Host.Types.{
  max_ports, max_port_chan, HostError, too_many_ports, bad_port, misplaced_main, empty_port,
  too_many_channels, narrow_input, PortInfo, Target, in_row, out_row, aux, sink, Buffer, Layout,
  PluginOps,
}

-- The pointer of channel `flat`, which belongs to port `i`, on a host of `ch` channels.
unfoldable pub route : Bool → ℕ → ℕ → ℕ → Target
route is_input ch i flat =
    if i == 0
    then (if is_input
        then in_row (if ltb flat ch then flat else ch - 1)
        else if ltb flat ch
        then out_row flat
        else sink)
    else if is_input
    then aux
    else sink

-- One direction's buffers and pointers, `flat` channels of them laid out.
pub record Side : Type 0 where
  pub bufs : ℕ → Buffer
  pub ptr : ℕ → Target
  pub flat : ℕ

-- A port that passes the checks.
unfoldable pub lay_out : Bool → ℕ → ℕ → ℕ → Side → Side
unfolding route
lay_out is_input ch i count d = record {
  bufs = update d.bufs i (record { first = d.flat; channel_count = count });
  ptr = for_range count d.flat (λ k p. update p k (route is_input ch i k)) d.ptr;
  flat = d.flat + count;
}

-- The checks of a port, in their order.
unfoldable pub check_port : ℕ → ℕ → Option PortInfo → Option HostError
check_port i flat none = some bad_port
check_port i flat (some info) =
    if info.is_main && not (i == 0)
    then some misplaced_main
    else if info.channel_count == 0
    then some empty_port
    else if ltb max_port_chan (flat + info.channel_count)
    then some too_many_channels
    else none

abbrev pub channels_of : Option PortInfo → ℕ
channels_of none = 0
channels_of (some info) = info.channel_count

-- `for (i = i; i < i + n; i++)` over the ports of one direction: the first bad port ends it.
unfoldable pub read_side : Bool → ℕ → (ℕ → Option PortInfo) → ℕ → ℕ → Side → Option HostError × Side
unfolding check_port lay_out
read_side is_input ch get zero i d = (none, d)
read_side is_input ch get (suc n) i d =
    let rest =
      read_side is_input ch get n (suc i) (lay_out is_input ch i (channels_of (get i)) d) in
    elim (check_port i d.flat (get i)) [ none ↦ rest | some e ↦ (some e, d) ]

-- Both counts of ports and channels as they stand without the extension, and after a close.
abbrev pub no_ports : Layout → Layout
no_ports l = record l {
  n_in_ports = 0;
  n_out_ports = 0;
  n_in_chan = 0;
  n_out_chan = 0;
  n_in_main = 0;
  n_out_main = 0;
  n_in_aux = 0;
}

abbrev pub main_of : ℕ → Side → ℕ
main_of n d = if n == 0 then 0 else (d.bufs 0).channel_count

-- The layout once both directions have been read.
abbrev pub with_input : ℕ → Side → Layout → Layout
with_input n d l = record l {
  in_bufs = d.bufs;
  in_ptr = d.ptr;
  n_in_ports = n;
  n_in_chan = d.flat;
  n_in_main = main_of n d;
  n_in_aux = d.flat - main_of n d;
}

abbrev pub with_output : ℕ → Side → Layout → Layout
with_output n d l = record l {
  out_bufs = d.bufs;
  out_ptr = d.ptr;
  n_out_ports = n;
  n_out_chan = d.flat;
  n_out_main = main_of n d;
}

module _ {P D S : Type 0} (ops : PluginOps P D S) where
  -- One direction: its first error, and the layout after it.
  unfoldable pub read_direction : P → Bool → ℕ → Layout → Option HostError × Layout
  read_direction p true ch l =
      if ltb max_ports (ops.port_count p true)
      then (some too_many_ports, l)
      else let (e, d) =
          read_side true ch (λ i. ops.port_get p i true) (ops.port_count p true) 0
            (record { bufs = l.in_bufs; ptr = l.in_ptr; flat = 0 }) in
        (
          e,
          elim e [
            | none ↦ with_input (ops.port_count p true) d l
            | some why ↦ record l { in_bufs = d.bufs; in_ptr = d.ptr }
          ],
        )
  read_direction p false ch l =
      if ltb max_ports (ops.port_count p false)
      then (some too_many_ports, l)
      else let (e, d) =
          read_side false ch (λ i. ops.port_get p i false) (ops.port_count p false) 0
            (record { bufs = l.out_bufs; ptr = l.out_ptr; flat = 0 }) in
        (
          e,
          elim e [
            | none ↦ with_output (ops.port_count p false) d l
            | some why ↦ record l { out_bufs = d.bufs; out_ptr = d.ptr }
          ],
        )

  unfoldable pub read_audio_ports : P → ℕ → Layout → Option HostError × Layout
  read_audio_ports p ch l =
      if not (ops.has_ports p)
      then (none, no_ports l)
      else let (e, l1) = read_direction p true ch l in
        elim e [
          | some why ↦ (some why, l1)
          | none ↦
              let (e', l2) = read_direction p false ch l1 in
              elim e' [
                | some why ↦ (some why, l2)
                | none ↦
                    if not (l2.n_in_ports == 0) && ltb l2.n_in_main ch
                    then (some narrow_input, l2)
                    else (none, l2)
              ]
        ]
