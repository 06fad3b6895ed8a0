-- ===== src/Sniff/Sources.antt =====
-- The packet sources of internal/sniff/sources.go: the loops of `RunLive`, `RunFile` and `RunMirror` over
-- what they read, the choice of an interface, and its permission. Decoded packets, libpcap, sockets and the
-- pipeline are parameters.
use mocking_box.Prelude.{
  Bool, true, false, not, ◌||◌, List, [], ◌∷◌, ◌++◌, Option, none, some, if◌then◌else◌, any,
  GoString, str, contains, Result, ok, fail,
}

-- The packets with the payloads of their layers, and the pipeline.
pub record Capturing : Type 1 where
  pub Packet : Type 0
  pub State : Type 0
  pub handle : Packet → State → State
  pub flush : State → State
  -- `FlushOld(15 * time.Second)`
  pub flush_old : State → State
  -- The payload of the UDP layer, and of the VXLAN layer of a datagram, and an Ethernet frame
  pub udp_payload : Packet → Option GoString
  pub vxlan_payload : GoString → Option GoString
  pub ethernet : GoString → Packet

module _ (C : Capturing) where
  -- `decapVXLANPayload`
  unfoldable pub decap_vxlan_payload : GoString → Option C.Packet
  decap_vxlan_payload datagram = go (C.vxlan_payload datagram)
    where
      go : Option GoString → Option C.Packet
      go none = none
      go (some payload) = some (C.ethernet payload)

  -- `decapVXLAN`
  unfoldable pub decap_vxlan : C.Packet → Option C.Packet
  unfolding decap_vxlan_payload
  decap_vxlan pkt = go (C.udp_payload pkt)
    where
      go : Option GoString → Option C.Packet
      go none = none
      go (some payload) = decap_vxlan_payload payload

  handle_if : Option C.Packet → C.State → C.State
  handle_if none s = s
  handle_if (some pkt) s = C.handle pkt s

  -- What `ReadPacketData` gives until the end of the file: an error, or none
  unfoldable pub run_file :
      Bool → List C.Packet → Option GoString → C.State → Option GoString × C.State
  unfolding decap_vxlan handle_if
  run_file vxlan [] none s = (none, C.flush s)
  run_file vxlan [] (some e) s = (some e, s)
  run_file true (pkt ∷ pkts) end s = run_file true pkts end (handle_if (decap_vxlan pkt) s)
  run_file false (pkt ∷ pkts) end s = run_file false pkts end (C.handle pkt s)

  -- What the loop of `RunLive` selects
  pub data Live : Type 0 where
    stop tick closed : Live
    packet : C.Packet → Live

  -- The loop of `RunLive`; none where it goes on
  unfoldable pub run_live : List Live → C.State → Option C.State
  run_live [] s = none
  run_live (stop ∷ later) s = some (C.flush s)
  run_live (closed ∷ later) s = some (C.flush s)
  run_live (tick ∷ later) s = run_live later (C.flush_old s)
  run_live (packet pkt ∷ later) s = run_live later (C.handle pkt s)

  -- What happens to `RunMirror`: a datagram, the ticker, and an error of the socket, after a stop or not
  pub data Mirrored : Type 0 where
    datagram : GoString → Mirrored
    mirror_tick : Mirrored
    socket_error : Bool → GoString → Mirrored

  -- The loop of `RunMirror`; none where it goes on
  unfoldable pub run_mirror : List Mirrored → C.State → Option (Option GoString × C.State)
  unfolding decap_vxlan_payload handle_if
  run_mirror [] s = none
  run_mirror (datagram d ∷ later) s = run_mirror later (handle_if (decap_vxlan_payload d) s)
  run_mirror (mirror_tick ∷ later) s = run_mirror later (C.flush_old s)
  run_mirror (socket_error true e ∷ later) s = some (none, C.flush s)
  run_mirror (socket_error false e ∷ later) s = some (some e, s)

-- An interface with its flags, and of each address whether it is an IPv4 network.
pub record Interface : Type 0 where
  pub name : GoString
  pub up : Bool
  pub loopback : Bool
  pub ipv4 : List Bool

-- The loop of `DefaultInterface`
unfoldable pub first_interface : List Interface → Result GoString
first_interface [] = fail (str "no active non-loopback interface")
first_interface (i ∷ is) =
    let rest = first_interface is in
    if not (i.up) || i.loopback then rest else if any (λ v. v) (i.ipv4) then ok (i.name) else rest

-- `DefaultInterface`
unfoldable pub default_interface : Result (List Interface) → Result GoString
unfolding first_interface
default_interface (fail e) = fail e
default_interface (ok is) = first_interface is

-- `permissionHint`
unfoldable pub permission_hint : GoString → GoString → GoString
unfolding contains
permission_hint iface msg =
    if contains msg (str "permission")
      || (contains msg (str "not permitted") || contains msg (str "Operation not permitted"))
    then str "no permission on "
      ++ (iface
          ++ (str " "
              ++ (226 ∷ 128 ∷ 148 ∷ [])
              ++ str " run: sudo setcap cap_net_raw+eip <binary>  (or sudo / --cap-add=NET_RAW)"))
    else iface ++ (str ": " ++ msg)

opened : GoString → Option GoString → Bool × GoString
unfolding permission_hint
opened iface (some e) = (false, permission_hint iface e)
opened iface none = (true, str "capture ready on " ++ iface)

-- `CanCapture`, with the error of opening an interface
unfoldable pub can_capture :
    Result GoString → (GoString → Option GoString) → GoString → Bool × GoString
unfolding opened
can_capture detected open_error (c ∷ iface) = opened (c ∷ iface) (open_error (c ∷ iface))
can_capture (fail e) open_error [] = (false, str "no interface: " ++ e)
can_capture (ok iface) open_error [] = opened iface (open_error iface)
